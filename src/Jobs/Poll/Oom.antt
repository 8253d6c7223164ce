-- ===== src/Jobs/Poll/Oom.antt =====
-- When a failed workflow counts as out of memory.
use openeo_argoworkflows.Base.{
  String, true, Option, none, some, List, [], ◌∷◌, ◌++◌, ◌≡◌, ◌⊎◌, ◌↔◌, arith,
}
use openeo_argoworkflows.Base.Text.{Text, codes, lower, contains, contains_sound, contains-append}
use openeo_argoworkflows.Jobs.Model.{Workflow}
use openeo_argoworkflows.Jobs.Poll.{message_text, mentions_oom, nodes_of, any_oom, detect_oom}

-- `t` stands somewhere in `s`.
abbrev pub Within : Text → Text → Type 0
Within t s = (pre post : Text) × (s ≡ pre ++ (t ++ post))

contains_iff : (s t : Text) → (contains s t ≡ true) ↔ Within t s
contains_iff s t = (contains_sound s t, λ (pre, post, e). rw e (contains-append pre t post))

-- A message that says, in any letter case, that memory ran out.
abbrev pub SaysOom : Option String → Type 0
SaysOom none = ⊥
SaysOom (some m) =
    Within (codes "oomkilled") (lower (codes m)) ⊎ Within (codes "out of memory") (lower (codes m))

abbrev pub AnyOom : List (Option String) → Type 0
AnyOom [] = ⊥
AnyOom (m ∷ ms) = SaysOom m ⊎ AnyOom ms

message_iff : (m : Option String) → (mentions_oom (message_text m) ≡ true) ↔ SaysOom m
message_iff none = unfold contains in (λ h. cc, λ h. absurd h)
message_iff (some m) = ground (
  arith,
  contains_iff (lower (codes m)) (codes "oomkilled"),
  contains_iff (lower (codes m)) (codes "out of memory"),
)

any_oom_iff : (ms : List (Option String)) → (any_oom ms ≡ true) ↔ AnyOom ms
unfolding any_oom
any_oom_iff [] = (λ h. cc, λ h. absurd h)
any_oom_iff (m ∷ ms) = ground (arith, message_iff m, any_oom_iff ms)

-- A workflow counts as out of memory exactly when the message of one of its nodes says so.
detect_oom_iff : (w : Workflow) → (detect_oom w ≡ true) ↔ AnyOom (nodes_of w)
unfolding detect_oom
detect_oom_iff w = any_oom_iff (nodes_of w)
