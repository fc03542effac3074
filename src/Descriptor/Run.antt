-- ===== src/Descriptor/Run.antt =====
-- The combinators of nom as functions, which satisfy what `Nom` asks of them.
use rust_jvm.Prelude.{
  ℕ, zero, suc, ◌<◌, ◌≡◌, ◌≢◌, refl, Option, none, some, List, [], ◌∷◌, ◌++◌, arith, length, All,
  ltb, lt→ltb, ltb→lt, ◌==◌, ==_iff, if◌then◌else◌, Bool-cases, inl, inr,
}
use rust_jvm.Descriptor.{Text}
use rust_jvm.Descriptor.Nom.{Nom, Parser, ◌>>=◌, or_else, has_char}

abbrev pub one_char : ℕ → Parser ℕ
one_char c [] = none
one_char c (d ∷ i) = if c == d then some (i, c) else none

abbrev pub one_of : Text → Parser ℕ
one_of cs [] = none
one_of cs (d ∷ i) = if has_char cs d then some (i, d) else none

abbrev pub take_until : ℕ → Parser Text
take_until c [] = none
take_until c (d ∷ i) =
    let rest = take_until c i in
    if d == c then some (d ∷ i, []) else (rest >>= λ (r : Text × Text). some (r.0, d ∷ r.1))

abbrev pub eof : Parser Text
eof [] = some ([], [])
eof (d ∷ i) = none

abbrev pub map : (A B : Type 0) → (A → B) → Parser A → Parser B
map A B f p i = p i >>= λ (r : Text × A). some (r.0, f r.1)

abbrev pub many0_next :
    {A : Type 0}
    → (Text → Option (Text × List A))
    → Text
    → Option (Text × A)
    → Option (Text × List A)
many0_next again i none = some (i, [])
many0_next again i (some (r, a)) =
    if ltb (length r) (length i) then (again r >>= λ s. some (s.0, a ∷ s.1)) else none

abbrev pub many0_loop : {A : Type 0} → Parser A → ℕ → Parser (List A)
many0_loop p zero i = none
many0_loop p (suc fuel) i = many0_next (many0_loop p fuel) i (p i)

abbrev pub many0 : (A : Type 0) → Parser A → Parser (List A)
many0 A p i = many0_loop p (suc (length i)) i

abbrev pub delimited : (A B C : Type 0) → Parser A → Parser B → Parser C → Parser B
delimited A B C p q s i = p i >>= λ (x : Text × A).
    q x.0 >>= λ (y : Text × B). s y.0 >>= λ (z : Text × C). some (z.0, y.1)

pub take_until-found :
    (c : ℕ) (xs i : Text) → All (λ x. x ≢ c) xs → take_until c (xs ++ c ∷ i) ≡ some (c ∷ i, xs)
take_until-found c [] i h = rw ((==_iff c c).1 refl)
take_until-found c (x ∷ xs) i (h, hs) = elim (Bool-cases (x == c)) [
  | inl e ↦ absurd (h ((==_iff x c).0 e))
  | inr e ↦ rw (e, take_until-found c xs i hs)
]

pub take_until-missing : (c : ℕ) (xs : Text) → All (λ x. x ≢ c) xs → take_until c xs ≡ none
take_until-missing c [] h = refl
take_until-missing c (x ∷ xs) (h, hs) = elim (Bool-cases (x == c)) [
  | inl e ↦ absurd (h ((==_iff x c).0 e))
  | inr e ↦ rw (e, take_until-missing c xs hs)
]

many0_next_same :
    {A : Type 0} (again again' : Parser (List A)) (i : Text) (o : Option (Text × A))
    → ((r : Text) → length r < length i → again r ≡ again' r)
    → many0_next again i o ≡ many0_next again' i o
many0_next_same again again' i none h = refl
many0_next_same again again' i (some (r, a)) h = elim (Bool-cases (ltb (length r) (length i))) [
  | inl e ↦ rw (e, h r (ltb→lt (length r) (length i) e))
  | inr e ↦ rw e
]

many0_fuel :
    {A : Type 0} (p : Parser A) (fuel fuel' : ℕ) (i : Text)
    → length i < fuel
    → length i < fuel'
    → many0_loop p fuel i ≡ many0_loop p fuel' i
many0_fuel p zero fuel' i h h' = elim h [ ]
many0_fuel p (suc fuel) zero i h h' = elim h' [ ]
many0_fuel p (suc fuel) (suc fuel') i h h' =
    many0_next_same (many0_loop p fuel) (many0_loop p fuel') i (p i)
      (λ r lt. many0_fuel p fuel fuel' r (omega arith) (omega arith))

pub many0-step :
    (A : Type 0) (p : Parser A) (i r : Text) (a : A)
    → p i ≡ some (r, a)
    → length r < length i
    → many0 A p i ≡ (many0 A p r >>= λ (s : Text × List A). some (s.0, a ∷ s.1))
many0-step A p i r a h lt = rw (
  h,
  lt→ltb (length r) (length i) lt,
  many0_fuel p (length i) (suc (length r)) r lt (omega arith),
)

abbrev pub run : Nom
run = record {
  one_char = one_char;
  one_of = one_of;
  take_until = take_until;
  eof = eof;
  map = map;
  alt2 = λ A p q i. or_else (p i) (q i);
  alt3 = λ A p q r i. or_else (p i) (or_else (q i) (r i));
  many0 = many0;
  delimited = delimited;
  one_char-nil = λ c. refl;
  one_char-cons = λ c d i. refl;
  one_of-nil = λ cs. refl;
  one_of-cons = λ cs d i. refl;
  take_until-found = take_until-found;
  take_until-missing = take_until-missing;
  eof-nil = refl;
  eof-cons = λ d i. refl;
  map-run = λ A B f p i. refl;
  alt2-run = λ A p q i. refl;
  alt3-run = λ A p q r i. refl;
  many0-stop = λ A p i h. rw h;
  many0-step = many0-step;
  delimited-run = λ A B C p q s i. refl;
}
