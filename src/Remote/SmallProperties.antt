-- ===== src/Remote/SmallProperties.antt =====
-- libsystemd's Get and Set on a bus of tokens, with one name for a property: for the tests.
use sdbus_cpp.Prelude.{
  ℤ, String, true, false, Option, none, some, some-cancel, List, [], ◌∷◌, ◌++◌, ◌⊎◌, ◌≡◌, refl, ap,
  sym, ◌∙◌, inl, inr, Bool-cases, if◌then◌else◌,
}
use package.text.Mathlib.Text.{◌==◌ as str_eq}
use sdbus_cpp.Handler.{BusError}
use sdbus_cpp.Message.Types.{string, Token, item, text, Container, opening, closing}
use sdbus_cpp.Message.Reader.{Reader}
use sdbus_cpp.Message.TokenBus.{TokenMessage, token_bus, token_append, token_read}
use sdbus_cpp.Message.Write.{to_payload}
use sdbus_cpp.Message.Wire.{emit}
use sdbus_cpp.Object.Names.{Name, name_eq, name_eq-eq, name_eq_self}
use sdbus_cpp.Object.Items.{SdBusEntry}
use sdbus_cpp.Object.Entries.{described, IsOnly}
use sdbus_cpp.Remote.Service.{Answer, replied, failed, aborted}
use sdbus_cpp.Remote.PropertyBus.{PropertyBus, PropertyBusLaws, GetCallback, SetCallback}

-- The signature of the first property of the name.
abbrev signature_if : Name → Option (Name × Name) → Option Name → Option Name
signature_if n none rest = rest
signature_if n (some (n', s)) rest = if name_eq n' n then some s else rest

abbrev look_up : Name → List SdBusEntry → Option Name
look_up n [] = none
look_up n (e ∷ es) = signature_if n (described e) (look_up n es)

look_up-described :
    (n s : Name) (d : Option (Name × Name)) (rest : Option Name)
    → ((s' : Name) → d ≡ some (n, s') → s' ≡ s)
    → (d ≡ some (n, s)) ⊎ (rest ≡ some s)
    → signature_if n d rest ≡ some s
look_up-described n s none rest same (inl bad) = cc
look_up-described n s none rest same (inr found) = found
look_up-described n s (some (n', s')) rest same h = elim (Bool-cases (name_eq n' n)) [
  | inl e ↦ rw e (ap some (same s' (ap (λ z. some (z, s')) (name_eq-eq n' n e))))
  | inr e ↦ rw e (elim h [
    | inl named ↦
        let equal : n' ≡ n = ap (λ d. d.0) (some-cancel named) in
        let bad : true ≡ false = sym (name_eq_self n) ∙ ap (λ z. name_eq z n) (sym equal) ∙ e in cc
    | inr found ↦ found
  ])
]

IsOnly-look_up :
    (n s : Name) (e : SdBusEntry) (es : List SdBusEntry) → IsOnly n s e es → look_up n es ≡ some s
IsOnly-look_up n s e [] (at, named, only) = absurd at
IsOnly-look_up n s e (e' ∷ es) (at, named, only) =
    look_up-described n s (described e') (look_up n es)
      (λ s' d. ap (λ d. d.1) (some-cancel (sym d ∙ ap described (only e' s' (inl refl) d) ∙ named)))
      (elim at [
        | inl same ↦ inl (ap described (sym same) ∙ named)
        | inr behind ↦
            inr (IsOnly-look_up n s e es (behind, named, λ e'' s' h. only e'' s' (inr h)))
      ])

abbrev second_text : List Token → String
second_text (a ∷ item string (text p) ∷ rest) = p
second_text rest = ""

abbrev answer_get :
    {S : Type 0}
    → S
    → Option ((ℤ × Option BusError × Option TokenMessage) × S)
    → Answer token_bus × S
answer_get s none = (aborted, s)
answer_get s (some ((r, some e, m), s')) = (failed e, s')
answer_get s (some ((r, none, none), s')) = (aborted, s')
answer_get s (some ((r, none, some m), s')) = (replied (m.0, m.1 ++ closing ∷ []), s')

abbrev answer_set : {S : Type 0} → S → Option ((ℤ × Option BusError) × S) → Answer token_bus × S
answer_set s none = (aborted, s)
answer_set s (some ((r, some e), s')) = (failed e, s')
answer_set s (some ((r, none), s')) = (replied ([], []), s')

-- The bytes of the names that occur here.
abbrev pub bytes : String → Name
bytes p = if str_eq p "Level" then 76 ∷ [] else 0 ∷ []

abbrev behind_names : List Token → List Token
behind_names (a ∷ b ∷ c ∷ rest) = rest
behind_names ts = ts

abbrev value_of : Reader token_bus → Reader token_bus
value_of call = record { msg = (Container.variant ∷ [], behind_names call.msg.1); valid = true }

abbrev get_named :
    {S : Type 0} → GetCallback token_bus S → S → String → Option Name → Answer token_bus × S
get_named callback s p none = (aborted, s)
get_named callback s p (some signature) =
    answer_get s (callback (bytes p) s ([], opening Container.variant signature ∷ []))

abbrev set_named :
    {S : Type 0}
    → SetCallback token_bus S
    → S
    → String
    → Reader token_bus
    → Option Name
    → Answer token_bus × S
set_named callback s p call none = (aborted, s)
set_named callback s p call (some signature) = answer_set s (callback (bytes p) s (value_of call))

abbrev get_small :
    {S : Type 0}
    → Name
    → List SdBusEntry
    → GetCallback token_bus S
    → S
    → Reader token_bus
    → Answer token_bus × S
get_small interface entries callback s call =
    let p = second_text call.msg.1 in get_named callback s p (look_up (bytes p) entries)

abbrev set_small :
    {S : Type 0}
    → Name
    → List SdBusEntry
    → SetCallback token_bus S
    → S
    → Reader token_bus
    → Answer token_bus × S
set_small interface entries callback s call =
    let p = second_text call.msg.1 in set_named callback s p call (look_up (bytes p) entries)

abbrev pub small_props : PropertyBus token_bus
small_props = record {
  name_of = bytes;
  get_property = get_small;
  set_property = set_small;
  reply_for = λ signature. ([], opening Container.variant signature ∷ []);
  finished = λ m. (m.0, m.1 ++ closing ∷ []);
  value_in = value_of;
  accepted = ([], []);
  contents = λ m. m.1;
  message_of = λ ts. record { msg = ([], ts); valid = true };
}

get_small_lem :
    {S : Type 0} (interface : Name) (entries : List SdBusEntry) (callback : GetCallback token_bus S)
    (s : S) (call : Reader token_bus) (p : String) (signature : Name)
    (r : Option ((ℤ × Option BusError × Option TokenMessage) × S))
    → second_text call.msg.1 ≡ p
    → look_up (bytes p) entries ≡ some signature
    → callback (bytes p) s ([], opening Container.variant signature ∷ []) ≡ r
    → get_small interface entries callback s call ≡ answer_get s r
get_small_lem interface entries callback s call p signature r named found called =
    ap (λ q. get_named callback s q (look_up (bytes q) entries)) named
    ∙ ap (get_named callback s p) found
    ∙ ap (answer_get s) called

set_small_lem :
    {S : Type 0} (interface : Name) (entries : List SdBusEntry) (callback : SetCallback token_bus S)
    (s : S) (call : Reader token_bus) (p : String) (signature : Name)
    (r : Option ((ℤ × Option BusError) × S))
    → second_text call.msg.1 ≡ p
    → look_up (bytes p) entries ≡ some signature
    → callback (bytes p) s (value_of call) ≡ r
    → set_small interface entries callback s call ≡ answer_set s r
set_small_lem interface entries callback s call p signature r named found called =
    ap (λ q. set_named callback s q call (look_up (bytes q) entries)) named
    ∙ ap (set_named callback s p call) found
    ∙ ap (answer_set s) called

pub small_props_laws : PropertyBusLaws token_bus token_append token_read small_props
unfolding emit to_payload
small_props_laws = record {
  get_replied = λ entries interface p e signature callback s s' call r m only there called success.
      get_small_lem (bytes interface) entries callback s call p signature _ (ap second_text there)
        (IsOnly-look_up (bytes p) signature e entries only) called;
  get_failed = λ entries interface p e signature callback s s' call r m error only there called.
      get_small_lem (bytes interface) entries callback s call p signature _ (ap second_text there)
        (IsOnly-look_up (bytes p) signature e entries only) called;
  set_replied =
      λ entries interface p signature flags inside callback s s' call r only there called success.
        set_small_lem (bytes interface) entries callback s call p signature _ (ap second_text there)
          (IsOnly-look_up (bytes p) signature _ entries only) called;
  set_failed =
      λ entries interface p signature flags inside callback s s' call r error only there called.
        set_small_lem (bytes interface) entries callback s call p signature _ (ap second_text there)
          (IsOnly-look_up (bytes p) signature _ entries only) called;
  reply_for_lem = λ signature. refl;
  finished_lem = λ m. refl;
  value_in_lem = λ names signature inside call there. (ap behind_names there, refl);
  accepted_lem = refl;
  contents_lem = λ m. refl;
  message_of_lem = λ ts. (refl, refl, refl);
}
