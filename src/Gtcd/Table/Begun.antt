-- ===== src/Gtcd/Table/Begun.antt =====
-- A transfer from the request for an object to the reply with its number.
use ditto.Prelude.{
  ℕ, Bool, true, false, Option, none, some, List, [], ◌∷◌, ◌++◌, if◌then◌else◌, ◌>>=◌,
}
use ditto.Prelude.Bytes.{Bytes}
use ditto.Gtcd.{Descriptor}
use ditto.Gtcd.Table.{Gtcd, Action, get_init_cb}

-- The pages of descriptors, the last of them marked as the last one.
pub deliver :
    Gtcd → Bool → ℕ → List Descriptor → List (List Descriptor) → Option (Gtcd × List Action)
deliver g last_try id p [] = get_init_cb g last_try id none p true
deliver g last_try id p (q ∷ ps) = do
  (g', a) ← get_init_cb g last_try id none p false
  (g'', b) ← deliver g' last_try id q ps
  some (g'', a ++ b)

abbrev pub joined : List Descriptor → List (List Descriptor) → List Descriptor
joined p [] = p
joined p (q ∷ ps) = p ++ joined q ps

-- What is said when all descriptors are there.
abbrev pub finish : Bool → ℕ → List Descriptor → List Action
finish last_try id all =
    Action.xp_notify_descriptors all
      ∷ (if last_try then Action.sp_notify_descriptors all ∷ [] else [])
    ++ (Action.init_reply id ∷ [])
