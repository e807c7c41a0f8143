-- ===== src/Server/Group/Base.antt =====
-- src/server/group/base.go: what the listener-based groups share. A `*Listener` is an address.
-- `listening` says that the real listener and the accept channel are open.
use frpcv.Prelude.{
  if◌then◌else◌, ◌==◌, nat_eq, Text, text_eq, ℕ, Bool, true, false, not, ◌&&◌, List, [], ◌∷◌, ◌++◌,
}

pub record BaseGroup : Type 0 where
  pub group : Text
  pub group_key : Text
  pub lns : List ℕ
  pub listening : Bool

abbrev pub zero_base : BaseGroup
zero_base = record { group = []; group_key = []; lns = []; listening = false }

abbrev pub is_empty : List ℕ → Bool
is_empty [] = true
is_empty (l ∷ ls) = false

unfoldable pub init_base : BaseGroup → Text → Text → BaseGroup
init_base bg group group_key = record bg { group = group; group_key = group_key; listening = true }

unfoldable pub new_listener : BaseGroup → ℕ → BaseGroup
new_listener bg ln = record bg { lns = bg.lns ++ ln ∷ [] }

-- append(bg.lns[:i], bg.lns[i+1:]...) at the first position of the listener
unfoldable pub remove_first : ℕ → List ℕ → List ℕ
remove_first ln [] = []
remove_first ln (l ∷ ls) = if l == ln then ls else l ∷ remove_first ln ls

-- `closeListener` up to the call of `cleanupFn`, which is due when no listener is left.
unfoldable pub close_listener : BaseGroup → ℕ → BaseGroup
unfolding remove_first
close_listener bg ln =
    let lns = remove_first ln bg.lns in
    record bg { lns = lns; listening = bg.listening && not (is_empty lns) }
