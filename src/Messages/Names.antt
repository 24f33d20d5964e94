-- ===== src/Messages/Names.antt =====
-- The names of the messages of include/Messagetypes.h and their numbers.
use Prim.Native.String.{String}
use text.Mathlib.Text.{◌==◌ as str_eq}
use text.Mathlib.TextEquality.{path_by_compare}
use mathlib.Core.Option.{some-injective}
use realtimebattle.Base.{
  ℕ, zero, suc, ◌≡◌, ◌↔◌, refl, sym, ap, ◌∙◌, true, List, [], ◌∷◌, Option, none, some, get_elem?,
  arith, if-cases,
}
use realtimebattle.Messages.{
  MessageFromRobot, robot_option, name, colour, rotate, rotate_to, rotate_amount, sweep, accelerate,
  brake, break, shoot, print, debug, debug_line, debug_circle, all_messages, message_from_robot,
  number, search_name, name2msg_from_robot_type,
}

str_eq→≡ : (s t : String) → str_eq s t ≡ true → s ≡ t
str_eq→≡ s t h = path_by_compare s t (ground (arith, h))

-- What is found has the name that was looked for, at one place of both lists.
abbrev FoundIn : List String → List MessageFromRobot → String → Option MessageFromRobot → Type 0
FoundIn ts ms t none = Unit
FoundIn ts ms t (some m) = (i : ℕ) × (get_elem? ts i ≡ some t) × (get_elem? ms i ≡ some m)

FoundIn-later :
    (x : String) (y : MessageFromRobot) (ts : List String) (ms : List MessageFromRobot) (t : String)
    (o : Option MessageFromRobot)
    → FoundIn ts ms t o
    → FoundIn (x ∷ ts) (y ∷ ms) t o
FoundIn-later x y ts ms t none f = tt
FoundIn-later x y ts ms t (some m) (i, a, b) = (suc i, a, b)

search_name-FoundIn :
    (ts : List String) (ms : List MessageFromRobot) (t : String)
    → FoundIn ts ms t (search_name ts ms t)
unfolding search_name
search_name-FoundIn [] ms t = tt
search_name-FoundIn (x ∷ ts) [] t = tt
search_name-FoundIn (x ∷ ts) (y ∷ ms) t =
    if-cases (λ (o : Option MessageFromRobot). FoundIn (x ∷ ts) (y ∷ ms) t o) (str_eq x "")
      (λ e. tt)
      (λ e.
        if-cases (λ (o : Option MessageFromRobot). FoundIn (x ∷ ts) (y ∷ ms) t o) (str_eq x t)
          {t = some y} {u = search_name ts ms t} (λ e'. (0, ap some (str_eq→≡ x t e'), refl))
          (λ e'. FoundIn-later x y ts ms t _ (search_name-FoundIn ts ms t)))

same_number : {m m' : MessageFromRobot} → some m ≡ some m' → number m' ≡ number m
same_number h = sym (ap number (some-injective _ _ h))

-- The enumeration in its order has each message at its number.
number_at : (i : ℕ) (m : MessageFromRobot) → get_elem? all_messages i ≡ some m → number m ≡ i
unfolding number
number_at zero m h = same_number h
number_at (suc zero) m h = same_number h
number_at (suc (suc zero)) m h = same_number h
number_at (suc (suc (suc zero))) m h = same_number h
number_at (suc (suc (suc (suc zero)))) m h = same_number h
number_at (suc (suc (suc (suc (suc zero))))) m h = same_number h
number_at (suc (suc (suc (suc (suc (suc zero)))))) m h = same_number h
number_at (suc (suc (suc (suc (suc (suc (suc zero))))))) m h = same_number h
number_at (suc (suc (suc (suc (suc (suc (suc (suc zero)))))))) m h = same_number h
number_at (suc (suc (suc (suc (suc (suc (suc (suc (suc zero))))))))) m h = same_number h
number_at (suc (suc (suc (suc (suc (suc (suc (suc (suc (suc zero)))))))))) m h = same_number h
number_at (suc (suc (suc (suc (suc (suc (suc (suc (suc (suc (suc zero))))))))))) m h = same_number h
number_at (suc (suc (suc (suc (suc (suc (suc (suc (suc (suc (suc (suc zero)))))))))))) m h =
    same_number h
number_at (suc (suc (suc (suc (suc (suc (suc (suc (suc (suc (suc (suc (suc zero))))))))))))) m h =
    same_number h
number_at (suc (suc (suc (suc (suc (suc (suc (suc (suc (suc (suc (suc (suc (suc zero)))))))))))))) m
      h =
    same_number h
number_at
      (suc (suc (suc (suc (suc (suc (suc (suc (suc (suc (suc (suc (suc (suc (suc i))))))))))))))) m
      h =
    cc

table_name :
    (m : MessageFromRobot) (t : String)
    → get_elem? message_from_robot (number m) ≡ some t
    → name2msg_from_robot_type t ≡ some m
unfolding number name2msg_from_robot_type search_name
table_name robot_option t h = rw (sym (some-injective _ _ h)) refl
table_name name t h = rw (sym (some-injective _ _ h)) refl
table_name colour t h = rw (sym (some-injective _ _ h)) refl
table_name rotate t h = rw (sym (some-injective _ _ h)) refl
table_name rotate_to t h = rw (sym (some-injective _ _ h)) refl
table_name rotate_amount t h = rw (sym (some-injective _ _ h)) refl
table_name sweep t h = rw (sym (some-injective _ _ h)) refl
table_name accelerate t h = rw (sym (some-injective _ _ h)) refl
table_name brake t h = rw (sym (some-injective _ _ h)) refl
table_name break t h = rw (sym (some-injective _ _ h)) refl
table_name shoot t h = rw (sym (some-injective _ _ h)) refl
table_name print t h = rw (sym (some-injective _ _ h)) refl
table_name debug t h = rw (sym (some-injective _ _ h)) refl
table_name debug_line t h = rw (sym (some-injective _ _ h)) refl
table_name debug_circle t h = rw (sym (some-injective _ _ h)) refl

found_name :
    (m : MessageFromRobot) (t : String) (o : Option MessageFromRobot)
    → FoundIn message_from_robot all_messages t o
    → o ≡ some m
    → get_elem? message_from_robot (number m) ≡ some t
found_name m t none f h = cc
found_name m t (some m') (i, a, b) h = let at : number m ≡ i = number_at i m (b ∙ h) in rw at a

-- `name2msg_from_robot_type` and the table are inverse to each other: a name is read as a message just
-- if it stands in the table at the message's number.
pub name2msg-roundtrip :
    (t : String) (m : MessageFromRobot)
    → (name2msg_from_robot_type t ≡ some m) ↔ (get_elem? message_from_robot (number m) ≡ some t)
unfolding name2msg_from_robot_type
name2msg-roundtrip t m =
    (found_name m t _ (search_name-FoundIn message_from_robot all_messages t), table_name m t)
