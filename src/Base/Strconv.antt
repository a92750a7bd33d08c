-- ===== src/Base/Strconv.antt =====
-- `strconv.Atoi`, without its limit to 64 bits, and `strconv.Itoa`.
use Prim.Native.Char.{code}
use Prim.Native.Nat.{ℕ, zero, suc, ◌+◌, ◌-◌, ◌*◌, ◌/◌, ◌%◌, ◌<◌}
use Prim.Native.String
use Prim.Native.String.{String}
use mathlib.Core.Bool.{Bool, true, ◌&&◌}
use mathlib.Core.Path.{◌≡◌, refl, sym, ap, ◌∙◌}
use mathlib.Core.Logic.{◌≢◌, inl, inr}
use mathlib.Core.Option.{Option, none, some}
use mathlib.Core.List.{List, [], ◌∷◌, ◌++◌}
use native.Mathlib.Omega.{arith}
use text.Mathlib.TextLemmas.{nil-append, cons-append, append_cancel_left}
use meridio.Base.Lists.{All, All-append}
use meridio.Base.Tests.{some_inj, ◌==◌, nat_eq, ltb, leb, if◌then◌else◌, Bool-cases, ltb→lt}
use meridio.Base.Int.{ℤ, pos, negsuc, sub_ℕ}

abbrev pub codes : String → List ℕ
codes String.[] = []
codes (String.◌∷◌ c s) = code c ∷ codes s

abbrev is_digit : ℕ → Bool
is_digit c = leb b'0' c && leb c b'9'

digits : ℕ → List ℕ → Option ℕ
digits acc [] = some acc
digits acc (c ∷ cs) =
    let rest = digits (acc * 10 + (c - b'0')) cs in if is_digit c then rest else none

unsigned : List ℕ → Option ℕ
unfolding digits
unsigned [] = none
unsigned (c ∷ cs) = digits 0 (c ∷ cs)

-- `strconv.ParseUint` in base 10, with 16 bits.
unfoldable pub parse_uint16 : List ℕ → Option ℕ
unfolding unsigned
parse_uint16 cs = elim (unsigned cs) [ none ↦ none | some n ↦ if ltb n 65536 then some n else none ]

signed : List ℕ → Option ℤ
unfolding unsigned
signed [] = none
signed (c ∷ cs) =
    if c == b'-'
    then (elim (unsigned cs) [ none ↦ none | some n ↦ some (sub_ℕ 0 n) ])
    else if c == b'+'
    then (elim (unsigned cs) [ none ↦ none | some n ↦ some (pos n) ])
    else elim (unsigned (c ∷ cs)) [ none ↦ none | some n ↦ some (pos n) ]

unfoldable pub atoi : String → Option ℤ
unfolding signed
atoi s = signed (codes s)

-- The decimal digit of a number below 10.
abbrev digit : ℕ → String
digit zero = "0"
digit (suc zero) = "1"
digit (suc (suc zero)) = "2"
digit (suc (suc (suc zero))) = "3"
digit (suc (suc (suc (suc zero)))) = "4"
digit (suc (suc (suc (suc (suc zero))))) = "5"
digit (suc (suc (suc (suc (suc (suc zero)))))) = "6"
digit (suc (suc (suc (suc (suc (suc (suc zero))))))) = "7"
digit (suc (suc (suc (suc (suc (suc (suc (suc zero)))))))) = "8"
digit (suc (suc (suc (suc (suc (suc (suc (suc (suc n))))))))) = "9"

-- The decimal digits; each round leaves a tenth, so as many rounds as the number are enough.
decimal : ℕ → ℕ → String
decimal zero n = ""
decimal (suc fuel) n =
    let rest = decimal fuel (n / 10) in
    if ltb n 10 then digit n else String.◌++◌ rest (digit (n % 10))

unfoldable pub itoa : ℤ → String
unfolding decimal
itoa (pos n) = decimal (suc n) n
itoa (negsuc n) = String.◌++◌ "-" (decimal (suc (suc n)) (suc n))

codes-append : (s t : String) → codes (String.◌++◌ s t) ≡ codes s ++ codes t
codes-append String.[] t = ap codes (nil-append t)
codes-append (String.◌∷◌ c s) t = rw (cons-append c s t) (ap (λ r. code c ∷ r) (codes-append s t))

digits_last :
    (acc : ℕ) (cs : List ℕ) (c m : ℕ)
    → digits acc cs ≡ some m
    → is_digit c ≡ true
    → digits acc (cs ++ c ∷ []) ≡ some (m * 10 + (c - b'0'))
unfolding digits
digits_last acc [] c m h d = ground arith
digits_last acc (x ∷ cs) c m h d = ground (arith, digits_last (acc * 10 + (x - b'0')) cs c m)

codes-digit : (n : ℕ) → n < 10 → codes (digit n) ≡ (n + b'0') ∷ []
codes-digit zero h = refl
codes-digit (suc zero) h = refl
codes-digit (suc (suc zero)) h = refl
codes-digit (suc (suc (suc zero))) h = refl
codes-digit (suc (suc (suc (suc zero)))) h = refl
codes-digit (suc (suc (suc (suc (suc zero))))) h = refl
codes-digit (suc (suc (suc (suc (suc (suc zero)))))) h = refl
codes-digit (suc (suc (suc (suc (suc (suc (suc zero))))))) h = refl
codes-digit (suc (suc (suc (suc (suc (suc (suc (suc zero)))))))) h = refl
codes-digit (suc (suc (suc (suc (suc (suc (suc (suc (suc zero))))))))) h = refl
codes-digit (suc (suc (suc (suc (suc (suc (suc (suc (suc (suc n)))))))))) h = absurd (omega arith)

digits_one : (n : ℕ) → n < 10 → digits 0 ((n + b'0') ∷ []) ≡ some n
unfolding digits
digits_one n h = ground arith

append_last-ne-nil : (xs : List ℕ) (c : ℕ) → xs ++ c ∷ [] ≢ []
append_last-ne-nil [] c h = cc
append_last-ne-nil (x ∷ xs) c h = cc

-- The digits are read back, and there is at least one.
digits-decimal :
    (fuel n : ℕ)
    → n < fuel
    → (digits 0 (codes (decimal fuel n)) ≡ some n) × (codes (decimal fuel n) ≢ [])
unfolding decimal
digits-decimal zero n h = elim h [ ]
digits-decimal (suc fuel) n h = elim (Bool-cases (ltb n 10)) [
  | inl small ↦
      let lt : n < 10 = ltb→lt n 10 small in rw (small, codes-digit n lt) (digits_one n lt, λ e. cc)
  | inr large ↦
      let c = n % 10 + b'0' in
      let rest = codes (decimal fuel (n / 10)) in
      let read = digits-decimal fuel (n / 10) (ground (arith, large)) in
      rw
        (
          large,
          codes-append (decimal fuel (n / 10)) (digit (n % 10)),
          codes-digit (n % 10) (omega arith),
        )
        (
          digits_last 0 rest c (n / 10) read.0 (ground arith) ∙ ap some (omega arith),
          append_last-ne-nil rest c,
        )
]

signed-digits : (cs : List ℕ) (n : ℕ) → digits 0 cs ≡ some n → cs ≢ [] → signed cs ≡ some (pos n)
unfolding signed digits
signed-digits [] n h ne = absurd (ne refl)
signed-digits (c ∷ cs) n h ne = ground arith

unsigned-digits : (cs : List ℕ) (n : ℕ) → digits 0 cs ≡ some n → cs ≢ [] → unsigned cs ≡ some n
unfolding unsigned
unsigned-digits [] n h ne = absurd (ne refl)
unsigned-digits (c ∷ cs) n h ne = h

signed-minus :
    (cs : List ℕ) (n : ℕ) → unsigned cs ≡ some (suc n) → signed (b'-' ∷ cs) ≡ some (negsuc n)
unfolding signed
signed-minus cs n h = ground arith

atoi-minus :
    (s : String) (n : ℕ)
    → digits 0 (codes s) ≡ some (suc n)
    → codes s ≢ []
    → atoi (String.◌++◌ "-" s) ≡ some (negsuc n)
unfolding atoi
atoi-minus s n read ne =
    rw (codes-append "-" s) (signed-minus (codes s) n (unsigned-digits (codes s) (suc n) read ne))

-- What `Itoa` writes, `Atoi` reads.
pub atoi-itoa : (z : ℤ) → atoi (itoa z) ≡ some z
unfolding atoi itoa
atoi-itoa (pos n) =
    let (read, ne) = digits-decimal (suc n) n (omega arith) in signed-digits _ n read ne
atoi-itoa (negsuc n) =
    let (read, ne) = digits-decimal (suc (suc n)) (suc n) (omega arith) in atoi-minus _ n read ne

pub itoa_inj : (y z : ℤ) → itoa y ≡ itoa z → y ≡ z
itoa_inj y z h = ground (arith, atoi-itoa y, atoi-itoa z, ap atoi h)

decimal-All : (fuel n : ℕ) → n < fuel → All (λ c. c ≢ b'-') (codes (decimal fuel n))
unfolding decimal
decimal-All zero n h = elim h [ ]
decimal-All (suc fuel) n h = elim (Bool-cases (ltb n 10)) [
  | inl small ↦ rw (small, codes-digit n (ltb→lt n 10 small)) (omega arith, tt)
  | inr large ↦
      rw
        (
          large,
          codes-append (decimal fuel (n / 10)) (digit (n % 10)),
          codes-digit (n % 10) (omega arith),
        )
        (All-append (λ c. c ≢ b'-') (codes (decimal fuel (n / 10))) _
          (decimal-All fuel (n / 10) (ground (arith, large))) (omega arith, tt))
]

-- A natural number is written without a dash.
itoa-All : (n : ℕ) → All (λ c. c ≢ b'-') (codes (itoa (pos n)))
unfolding itoa
itoa-All n = decimal-All (suc n) n (omega arith)

itoa-codes_inj : (y z : ℤ) → codes (itoa y) ≡ codes (itoa z) → y ≡ z
unfolding atoi
itoa-codes_inj y z h = some_inj (sym (atoi-itoa y) ∙ ap signed h ∙ atoi-itoa z)

-- Before the first c.
before_first :
    (c : ℕ) (xs ys rs ss : List ℕ)
    → All (λ x. x ≢ c) xs
    → All (λ x. x ≢ c) ys
    → xs ++ c ∷ rs ≡ ys ++ c ∷ ss
    → xs ≡ ys
before_first c [] [] rs ss h k e = refl
before_first c [] (y ∷ ys) rs ss h k e = absurd (k.0 (cc))
before_first c (x ∷ xs) [] rs ss h k e = absurd (h.0 (cc))
before_first c (x ∷ xs) (y ∷ ys) rs ss h k e =
    let same : x ≡ y = cc in
    let rest : xs ++ c ∷ rs ≡ ys ++ c ∷ ss = cc in
    cc (same, before_first c xs ys rs ss h.1 k.1 rest)

with_dash : (s t : String) → codes (String.◌++◌ s (String.◌++◌ "-" t)) ≡ codes s ++ b'-' ∷ codes t
with_dash s t = codes-append s (String.◌++◌ "-" t) ∙ ap (λ l. codes s ++ l) (codes-append "-" t)

pos_inj : {m n : ℕ} → pos m ≡ pos n → m ≡ n
pos_inj e = cc

-- A number with a dash behind it can be read off a text.
pub itoa-dash :
    (m n : ℕ) (s t : String)
    → String.◌++◌ (itoa (pos m)) (String.◌++◌ "-" s)
      ≡ String.◌++◌ (itoa (pos n)) (String.◌++◌ "-" t)
    → (m ≡ n) × (s ≡ t)
itoa-dash m n s t e =
    let texts : codes (itoa (pos m)) ++ b'-' ∷ codes s ≡ codes (itoa (pos n)) ++ b'-' ∷ codes t =
      sym (with_dash (itoa (pos m)) s) ∙ ap codes e ∙ with_dash (itoa (pos n)) t in
    let same : m ≡ n = pos_inj (
      itoa-codes_inj (pos m) (pos n)
        (before_first b'-' _ _ (codes s) (codes t) (itoa-All m) (itoa-All n) texts)) in
    (
      same,
      append_cancel_left "-" s t (
          append_cancel_left (itoa (pos n)) (String.◌++◌ "-" s) (String.◌++◌ "-" t)
            (ap (λ i. String.◌++◌ (itoa (pos i)) (String.◌++◌ "-" s)) (sym same) ∙ e)),
    )
