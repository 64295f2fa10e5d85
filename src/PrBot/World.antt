-- ===== src/PrBot/World.antt =====
-- eval/pr_bot.py: the bot's actions. An action may raise; what it did before stays done.
use burnisher.Base.{ℕ, String, Bool, List, [], ◌∷◌, if◌then◌else◌, or_else}
use burnisher.Base.Eq.{string_eq, nat_eq}
use burnisher.Base.Dict.{Dict, lookup, insert, adjoin}
use burnisher.Base.Result.{Result, ok, err}
use burnisher.Base.Num.{num}
use burnisher.PrBot.{EvalRecord, relabel}

pub data Crash : Type 0 where
  checkout_failed arguments_missing no_cell_named no_sandbox build_raised scoring_raised
        unreadable_receipt :
      Crash

-- What is done besides labelling: a comment, a closed pull request, a build, a measurement, the
-- published raw file, and a merge.
pub data Event : Type 0 where
  commented closed built scored published merged : ℕ → Event

-- `labels` are those on GitHub, `records` the files under `evaluations/`.
pub record World : Type 0 where
  pub labels : Dict ℕ (List String)
  pub log : List Event
  pub records : Dict ℕ EvalRecord

abbrev pub Bot : Type 0 → Type 0
Bot A = World → Result Crash A × World

module _ {A : Type 0} where
  abbrev pub pure : A → Bot A
  pure a w = (ok a, w)

  abbrev pub crash : Crash → Bot A
  crash e w = (err e, w)

abbrev pub continue : {A B : Type 0} → Result Crash A → (A → Bot B) → Bot B
continue (ok a) f w = f a w
continue (err e) f w = (err e, w)

infixl 5 ◌>>=◌ ◌>>◌
abbrev pub ◌>>=◌ : {A B : Type 0} → Bot A → (A → Bot B) → Bot B
◌>>=◌ m f w = let (r, w') = m w in continue r f w'

abbrev pub ◌>>◌ : {B : Type 0} → Bot (Unit {0}) → Bot B → Bot B
m >> k = m >>= λ _. k

abbrev pub note : Event → Bot (Unit {0})
note e w = (ok tt, record w { log = e ∷ w.log })

abbrev pub labels_at : World → ℕ → List String
labels_at w num = or_else (lookup num w.labels) []

abbrev pub write_label : ℕ → String → Bot (Unit {0})
write_label num label w =
    (ok tt, record w { labels = insert num (relabel label (labels_at w num)) w.labels })

-- A dry run only prints.
unfoldable pub set_label : Bool → ℕ → String → Bot (Unit {0})
unfolding relabel
set_label dry num label = if dry then pure tt else write_label num label

unfoldable pub add_label : Bool → ℕ → String → Bot (Unit {0})
add_label dry num label w =
    if dry
    then (ok tt, w)
    else (ok tt, record w { labels = insert num (adjoin label (labels_at w num)) w.labels })

unfoldable pub comment : Bool → ℕ → Bot (Unit {0})
comment dry num = if dry then pure tt else note (commented num)

unfoldable pub close_pr : Bool → ℕ → Bot (Unit {0})
close_pr dry num = if dry then pure tt else note (closed num)
