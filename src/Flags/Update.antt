-- ===== src/Flags/Update.antt =====
-- The update behaviours of a property exclude one another.
use sdbus_cpp.Prelude.{
  Bool, true, false, if◌then◌else◌, refl, ap, ◌∙◌, ◌≡◌, ◌↔◌, arith, List, [], ◌∷◌,
}
use sdbus_cpp.Flags.{
  Flags, GeneralFlag, PropertyUpdateBehaviorFlag, deprecated, method_no_reply, privileged,
  emits_change_signal, default_flags, set_general, set_behavior, test_general, test_behavior,
}

-- The setters, as a client calls them.
pub data Setting : Type 0 where
  general : GeneralFlag → Bool → Setting
  behavior : PropertyUpdateBehaviorFlag → Setting

unfoldable pub apply : Setting → Flags → Flags
apply (general g v) f = set_general g v f
apply (behavior b) f = set_behavior b true f

unfoldable pub apply_all : List Setting → Flags → Flags
unfolding apply
apply_all [] f = f
apply_all (s ∷ ss) f = apply_all ss (apply s f)

-- The behaviour is in force and no other is.
abbrev pub Behaves : PropertyUpdateBehaviorFlag → Flags → Type 0
Behaves b f = (c : PropertyUpdateBehaviorFlag) → (test_behavior c f ≡ true) ↔ (c ≡ b)

-- Setting an update behaviour puts that one in force and no other, and leaves the general flags.
set_behavior-Behaves :
    (b : PropertyUpdateBehaviorFlag) (f : Flags)
    → Behaves b (set_behavior b true f)
      × ((g : GeneralFlag) → test_general g (set_behavior b true f) ≡ test_general g f)
unfolding set_behavior test_behavior test_general
set_behavior-Behaves b f = (λ c. keeps b c, λ g. other b g)
  where
    keeps :
        (b c : PropertyUpdateBehaviorFlag)
        → (test_behavior c (set_behavior b true f) ≡ true) ↔ (c ≡ b)
    keeps b c = ground arith

    other :
        (b : PropertyUpdateBehaviorFlag) (g : GeneralFlag)
        → test_general g (set_behavior b true f) ≡ test_general g f
    other b g = ground arith

set_general-Behaves :
    (b : PropertyUpdateBehaviorFlag) (g : GeneralFlag) (v : Bool) (f : Flags)
    → Behaves b f
    → Behaves b (set_general g v f)
unfolding set_general test_behavior
set_general-Behaves b deprecated v f h c = ground (arith, h c)
set_general-Behaves b _ v f h c = ground (arith, h c)

-- The last update behaviour of a list of settings, or the one in force before.
unfoldable pub last_behavior :
    PropertyUpdateBehaviorFlag → List Setting → PropertyUpdateBehaviorFlag
last_behavior b [] = b
last_behavior b (general g v ∷ ss) = last_behavior b ss
last_behavior b (behavior c ∷ ss) = last_behavior c ss

apply_all-Behaves :
    (b : PropertyUpdateBehaviorFlag) (ss : List Setting) (f : Flags)
    → Behaves b f
    → Behaves (last_behavior b ss) (apply_all ss f)
unfolding apply_all last_behavior
apply_all-Behaves b [] f h = h
apply_all-Behaves b (general g v ∷ ss) f h =
    apply_all-Behaves b ss (set_general g v f) (set_general-Behaves b g v f h)
apply_all-Behaves b (behavior c ∷ ss) f h =
    apply_all-Behaves c ss (set_behavior c true f) (set_behavior-Behaves c f).0

default-Behaves : Behaves emits_change_signal default_flags
unfolding default_flags test_behavior
default-Behaves c = ground arith

unfoldable pub is_flag : GeneralFlag → GeneralFlag → Bool
is_flag deprecated deprecated = true
is_flag method_no_reply method_no_reply = true
is_flag privileged privileged = true
is_flag _ _ = false

-- The last value of a list of settings for a general flag, or the one before.
unfoldable pub last_value : GeneralFlag → Bool → List Setting → Bool
unfolding is_flag
last_value g v [] = v
last_value g v (general h w ∷ ss) = last_value g (if is_flag g h then w else v) ss
last_value g v (behavior b ∷ ss) = last_value g v ss

set_general-test :
    (g h : GeneralFlag) (w : Bool) (f : Flags)
    → test_general g (set_general h w f) ≡ (if is_flag g h then w else test_general g f)
unfolding is_flag test_general set_general
set_general-test g h w f = ground arith

apply_all-test :
    (g : GeneralFlag) (ss : List Setting) (f : Flags)
    → test_general g (apply_all ss f) ≡ last_value g (test_general g f) ss
unfolding apply_all last_value
apply_all-test g [] f = refl
apply_all-test g (general h w ∷ ss) f =
    apply_all-test g ss (set_general h w f) ∙ ap (λ v. last_value g v ss) (set_general-test g h w f)
apply_all-test g (behavior b ∷ ss) f =
    apply_all-test g ss (set_behavior b true f)
    ∙ ap (λ v. last_value g v ss) ((set_behavior-Behaves b f).1 g)

default-test : (g : GeneralFlag) → test_general g default_flags ≡ false
unfolding default_flags test_general
default-test g = ground arith

-- Whatever general flags a client sets or clears on fresh flags, and whatever update behaviours it
-- switches on, exactly one update behaviour is in force, the one that was switched on last, or
-- EMITS_CHANGE_SIGNAL if none was; and each general flag has the value that it was given last, or is
-- clear if it was given none.
pub apply_all_default :
    (ss : List Setting)
    → Behaves (last_behavior emits_change_signal ss) (apply_all ss default_flags)
      × ((g : GeneralFlag) → test_general g (apply_all ss default_flags) ≡ last_value g false ss)
apply_all_default ss = (
  apply_all-Behaves emits_change_signal ss default_flags default-Behaves,
  λ g. apply_all-test g ss default_flags ∙ ap (λ v. last_value g v ss) (default-test g),
)
