-- ===== src/Ledger/Append.antt =====
-- The ledger is append-only.
use burnisher.Base.{
  String, ◌≡◌, refl, sym, ap, subst, ◌∙◌, ◌≢◌, inl, inr, false, Option, none, some, arith,
  if◌then◌else◌, Bool-cases, Option-cases, or_else,
}
use burnisher.Base.Eq.{◌==◌, string_eq, nat_eq}
use burnisher.Base.Dict.{lookup, insert, lookup-insert, eq_self, eq_of_test}
use burnisher.Base.Result.{Result, ok, err}
use burnisher.Base.Num.{Num}
use burnisher.Base.Eq.{pair_eq, option_eq, option_beq_iff}
use burnisher.Floor.{FloorError}
use burnisher.Cells.{Generation}
use burnisher.Receipt.{Body, Receipt, truthy}
use burnisher.Receipt.Build.{ReceiptError, verify_receipt}
use burnisher.Ledger.{
  default_receipt_id, rewrites, LedgerError, Current, Store, update_current, store_current, done,
  write_receipt, write_named, write_verified, append_receipt, totals, load_receipts,
}

module _ {R : Type 0} ⦃n : Num R⦄ where
  store_current-keeps :
      (s : Store R) (name : String) (t : Result FloorError (Current R))
      → ((store_current s name t).1.receipts ≡ s.receipts)
        × ((store_current s name t).1.challenges ≡ s.challenges)
  store_current-keeps s name (ok doc) = (refl, refl)
  store_current-keeps s name (err e) = (refl, refl)

  done-keeps : (m : Result LedgerError (Current R) × Store R) → (done m).1 ≡ m.1
  done-keeps (ok _, s) = refl
  done-keeps (err e, s) = refl

  -- recomputing the totals touches no receipt and no challenge
  receipts-update_current :
      (s : Store R) (name : String) (g : Option (Generation R))
      → ((update_current s name g).1.receipts ≡ s.receipts)
        × ((update_current s name g).1.challenges ≡ s.challenges)
  unfolding update_current
  receipts-update_current s name g =
      store_current-keeps s name (totals s.challenges name g (load_receipts s name))

  -- What an operation leaves of a store: every receipt under its name, and the challenges.
  pub record Extends (s s' : Store R) : Type 0 where
    pub receipts_stay :
        (k : String × String) (old : Receipt R)
        → lookup k s.receipts ≡ some old
        → lookup k s'.receipts ≡ some old
    pub challenges_same : s'.challenges ≡ s.challenges

  Extends-refl : (s : Store R) → Extends s s
  Extends-refl s = record { receipts_stay = λ k old h. h; challenges_same = refl }

  -- a new name in a dict hides no old one
  insert_new-keeps :
      (s : Store R) (name rid : String) (r : Receipt R)
      → lookup (name, rid) s.receipts ≡ none
      → (k : String × String) (old : Receipt R) → lookup k s.receipts ≡ some old
      → lookup k (insert (name, rid) r s.receipts) ≡ some old
  insert_new-keeps s name rid r new k old h =
      rw lookup-insert (elim (Bool-cases ((name, rid) == k)) [
        | inl same ↦ ground (arith, ap (λ j. lookup j s.receipts) (eq_of_test (name, rid) k same))
        | inr other ↦ rw other h
      ])

  written-Extends :
      (s : Store R) (name rid : String) (r : Receipt R) (g : Option (Generation R))
      → lookup (name, rid) s.receipts ≡ none
      → Extends s
          (done (update_current (record s { receipts = insert (name, rid) r s.receipts }) name g)).1
  written-Extends s name rid r g new =
      let s1 : Store R = record s { receipts = insert (name, rid) r s.receipts } in
      let (kept, same) = receipts-update_current s1 name g in
      rw (done-keeps (update_current s1 name g)) (record {
        receipts_stay = λ k old h. rw kept (insert_new-keeps s name rid r new k old h);
        challenges_same = same;
      })

  write_receipt-Extends :
      (s : Store R) (name rid : String) (r : Receipt R) (g : Option (Generation R))
      → Extends s (write_receipt s name rid r g).1
  unfolding write_receipt
  write_receipt-Extends s name rid r g = elim (Option-cases (lookup (name, rid) s.receipts)) [
    | inl new ↦ rw (new, write_receipt) (written-Extends s name rid r g new)
    | inr (old, present) ↦
        rw (present, write_receipt)
          (elim (Bool-cases (old.content_digest == r.content_digest)) [
            | inl same ↦ rw same (Extends-refl s)
            | inr different ↦ rw different (Extends-refl s)
          ])
  ]

  write_named-Extends :
      (s : Store R) (r : Receipt R) (rid : String) (g : Option (Generation R))
      (name : Option String)
      → Extends s (write_named s r rid g name).1
  write_named-Extends s r rid g none = Extends-refl s
  write_named-Extends s r rid g (some name) = write_receipt-Extends s name rid r g

  write_verified-Extends :
      (s : Store R) (r : Receipt R) (rid : String) (g : Option (Generation R))
      (checked : Result ReceiptError (Unit {0}))
      → Extends s (write_verified s r rid g checked).1
  write_verified-Extends s r rid g (err e) = Extends-refl s
  write_verified-Extends s r rid g (ok _) = write_named-Extends s r rid g r.benchmark_generation

  -- Whatever is appended, with whatever outcome, a receipt that is on file stays on file under its
  -- name, unchanged, and the challenges are untouched.
  pub append_receipt-Extends :
      (hash : Body R → String) (s : Store R) (r : Receipt R) (receipt_id : Option String)
      (g : Option (Generation R))
      → Extends s (append_receipt hash s r receipt_id g).1
  unfolding append_receipt
  append_receipt-Extends hash s r receipt_id g =
      write_verified-Extends s r _ g (verify_receipt hash r g)

  -- A receipt of this digest is on file under the id, or one of another digest.
  abbrev pub OnFile : Store R → String → String → Receipt R → Type 0
  OnFile s name rid r =
      (old : Receipt R) × ((lookup (name, rid) s.receipts ≡ some old)
        × (old.content_digest ≡ r.content_digest))

  abbrev pub Occupied : Store R → String → String → Receipt R → Type 0
  Occupied s name rid r =
      (old : Receipt R) × ((lookup (name, rid) s.receipts ≡ some old)
        × (old.content_digest ≢ r.content_digest))

  -- What a call comes to: when it returns, the receipt is on file under the id; it says that it would
  -- rewrite a receipt exactly when another one is there, and then the store is what it was.
  pub record Appended (s s' : Store R) (name rid : String) (r : Receipt R)
      (out : Result LedgerError (Unit {0})) : Type 0 where
    pub filed : out ≡ ok tt → OnFile s' name rid r
    pub refused : out ≡ err rewrites → Occupied s name rid r × (s' ≡ s)
    pub refuses : Occupied s name rid r → out ≡ err rewrites

  store_current-no_rewrite :
      (s : Store R) (name : String) (t : Result FloorError (Current R))
      → (done (store_current s name t)).0 ≢ err rewrites
  store_current-no_rewrite s name (ok doc) h = cc
  store_current-no_rewrite s name (err e) h = cc

  update_current-no_rewrite :
      (s : Store R) (name : String) (g : Option (Generation R))
      → (done (update_current s name g)).0 ≢ err rewrites
  unfolding update_current
  update_current-no_rewrite s name g =
      store_current-no_rewrite s name (totals s.challenges name g (load_receipts s name))

  write_receipt-Appended :
      (s : Store R) (name rid : String) (r : Receipt R) (g : Option (Generation R))
      → Appended s (write_receipt s name rid r g).1 name rid r (write_receipt s name rid r g).0
  unfolding write_receipt
  write_receipt-Appended s name rid r g = elim (Option-cases (lookup (name, rid) s.receipts)) [
    | inl new ↦ rw (new, write_receipt) (written new)
    | inr (old, present) ↦
        rw (present, write_receipt)
          (elim (Bool-cases (old.content_digest == r.content_digest)) [
            | inl same ↦
                rw same (kept old present (eq_of_test old.content_digest r.content_digest same))
            | inr different ↦ rw different (refusal old present different)
          ])
  ]
    where
      s1 : Store R
      s1 = record s { receipts = insert (name, rid) r s.receipts }

      written :
          lookup (name, rid) s.receipts ≡ none
          → Appended s
              (done (update_current s1 name g)).1
              name
              rid
              r
              (done (update_current s1 name g)).0
      written new =
          let (stays, _) = receipts-update_current s1 name g in
          record {
            filed = λ h. (r, (rw (done-keeps (update_current s1 name g), stays) (found_new), refl));
            refused = λ h. elim (update_current-no_rewrite s1 name g h) [ ];
            refuses = λ (old, (there_is, _)). cc;
          }
        where
          found_new : lookup (name, rid) (insert (name, rid) r s.receipts) ≡ some r
          found_new =
              let key : String × String = (name, rid) in rw (lookup-insert, eq_self key) refl

      kept :
          (old : Receipt R)
          → lookup (name, rid) s.receipts ≡ some old
          → old.content_digest ≡ r.content_digest
          → Appended s s name rid r (ok tt)
      kept old present same = record {
        filed = λ h. (old, (present, same));
        refused = λ h. cc;
        refuses = λ (other, (there_is, differs)).
            let one : old ≡ other = cc in
            elim (differs (ap (λ (q : Receipt R). q.content_digest) (sym one) ∙ same)) [ ];
      }

      refusal :
          (old : Receipt R)
          → lookup (name, rid) s.receipts ≡ some old
          → (old.content_digest == r.content_digest) ≡ false
          → Appended s s name rid r (err rewrites)
      refusal old present different = record {
        filed = λ h. cc;
        refused = λ h. (
          (
            old,
            (
              present,
              λ same.
                  ground
                    (arith, different, option_beq_iff old.content_digest r.content_digest, same),
            ),
          ),
          refl,
        );
        refuses = λ h. refl;
      }

  -- the id that a receipt is filed under
  abbrev pub id_of : Receipt R → Option String → String
  id_of r receipt_id = if truthy receipt_id then or_else receipt_id "" else default_receipt_id r

  -- What a call of `append_receipt` comes to, by what it returns or raises.
  pub record Filing (hash : Body R → String) (s s' : Store R) (r : Receipt R) (rid : String)
      (g : Option (Generation R)) (out : Result LedgerError (Unit {0})) : Type 0 where
    pub filed :
        out ≡ ok tt
        → (verify_receipt hash r g ≡ ok tt)
          × ((name : String) × ((r.benchmark_generation ≡ some name) × OnFile s' name rid r))
    pub refused :
        out ≡ err rewrites
        → (s' ≡ s)
          × ((name : String) × ((r.benchmark_generation ≡ some name) × Occupied s name rid r))
    pub refuses :
        (name : String)
        → verify_receipt hash r g ≡ ok tt
        → r.benchmark_generation ≡ some name
        → Occupied s name rid r
        → out ≡ err rewrites

  -- When a receipt is appended without an exception, it verifies, and a receipt of its digest is on file
  -- under its id. The call says that it would rewrite a receipt only when one of another digest is on
  -- file under that id, and then the store is what it was; and for a receipt that verifies it always
  -- says so then.
  pub append_receipt-Filing :
      (hash : Body R → String) (s : Store R) (r : Receipt R) (receipt_id : Option String)
      (g : Option (Generation R))
      → Filing hash s
          (append_receipt hash s r receipt_id g).1
          r
          (id_of r receipt_id)
          g
          (append_receipt hash s r receipt_id g).0
  unfolding append_receipt
  append_receipt-Filing hash s r receipt_id g = checked (verify_receipt hash r g) refl
    where
      named :
          verify_receipt hash r g ≡ ok tt
          → (o : Option String) → r.benchmark_generation ≡ o
          → Filing hash s
              (write_named s r (id_of r receipt_id) g o).1
              r
              (id_of r receipt_id)
              g
              (write_named s r (id_of r receipt_id) g o).0
      named hv none ho = record {
        filed = λ h. cc;
        refused = λ h. cc;
        refuses = λ name verified there_is occupied. cc;
      }
      named hv (some name) ho =
          let a = write_receipt-Appended s name (id_of r receipt_id) r g in
          record {
            filed = λ h. (hv, (name, (ho, a.filed h)));
            refused = λ h. let (occupied, same) = a.refused h in (same, (name, (ho, occupied)));
            refuses = λ name' verified there_is occupied.
                let one : name' ≡ name = cc in
                a.refuses (subst (λ z. Occupied s z (id_of r receipt_id) r) one occupied);
          }

      checked :
          (v : Result ReceiptError (Unit {0}))
          → verify_receipt hash r g ≡ v
          → Filing hash s
              (write_verified s r (id_of r receipt_id) g v).1
              r
              (id_of r receipt_id)
              g
              (write_verified s r (id_of r receipt_id) g v).0
      checked (err e) hv = record {
        filed = λ h. cc;
        refused = λ h. cc;
        refuses = λ name verified there_is occupied. cc;
      }
      checked (ok u) hv = named hv r.benchmark_generation refl
