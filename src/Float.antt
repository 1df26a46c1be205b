-- ===== src/Float.antt =====
-- Python's `float`, as far as the program compares, subtracts and adds temperatures and times.
-- A finite value is an integer number of thousandths (the unit in which the kernel reports
-- temperatures); the special values and their comparisons are those of IEEE 754. Rounding is not
-- modelled: sums and differences of finite values are exact.
use model_deck.Base.{
  ℕ, suc, ◌+◌, ◌-◌, ◌*◌, ◌≤◌, ◌≡◌, Bool, true, false, not, ◌&&◌, arith, leb, if◌then◌else◌,
}

-- `negsuc n` is -(n + 1).
pub data ℤ : Type 0 where
  pos : ℕ → ℤ
  negsuc : ℕ → ℤ

abbrev pub pos_part : ℤ → ℕ
pos_part (pos n) = n
pos_part (negsuc n) = 0

abbrev pub neg_part : ℤ → ℕ
neg_part (pos n) = 0
neg_part (negsuc n) = suc n

-- a - b, as an integer
abbrev pub sub_ℕ : ℕ → ℕ → ℤ
sub_ℕ a b = if leb b a then pos (a - b) else negsuc (b - a - 1)

infixl 65 ◌+ℤ◌ ◌-ℤ◌
infix 50 ◌≤ℤ◌
abbrev pub ◌+ℤ◌ : ℤ → ℤ → ℤ
a +ℤ b = sub_ℕ (pos_part a + pos_part b) (neg_part a + neg_part b)

abbrev pub ◌-ℤ◌ : ℤ → ℤ → ℤ
a -ℤ b = sub_ℕ (pos_part a + neg_part b) (neg_part a + pos_part b)

abbrev pub ◌≤ℤ◌ : ℤ → ℤ → Type 0
a ≤ℤ b = pos_part a + neg_part b ≤ pos_part b + neg_part a

abbrev pub leb_ℤ : ℤ → ℤ → Bool
leb_ℤ a b = leb (pos_part a + neg_part b) (pos_part b + neg_part a)

pub data Float : Type 0 where
  finite : ℤ → Float
  inf neg_inf nan : Float

-- math.isfinite
unfoldable pub is_finite : Float → Bool
is_finite (finite x) = true
is_finite _ = false

-- a <= b: false as soon as one side is not a number
unfoldable pub fle : Float → Float → Bool
fle nan b = false
fle (finite x) (finite y) = leb_ℤ x y
fle (finite x) inf = true
fle (finite x) neg_inf = false
fle (finite x) nan = false
fle inf inf = true
fle inf _ = false
fle neg_inf nan = false
fle neg_inf _ = true

-- a < b
unfoldable pub flt : Float → Float → Bool
flt nan b = false
flt (finite x) (finite y) = not (leb_ℤ y x)
flt (finite x) inf = true
flt (finite x) neg_inf = false
flt (finite x) nan = false
flt inf _ = false
flt neg_inf nan = false
flt neg_inf neg_inf = false
flt neg_inf _ = true

-- a == b
unfoldable pub feq : Float → Float → Bool
unfolding fle
feq a b = fle a b && fle b a

-- a - b
unfoldable pub fsub : Float → Float → Float
fsub nan b = nan
fsub (finite x) (finite y) = finite (x -ℤ y)
fsub (finite x) inf = neg_inf
fsub (finite x) neg_inf = inf
fsub (finite x) nan = nan
fsub inf inf = nan
fsub inf nan = nan
fsub inf _ = inf
fsub neg_inf neg_inf = nan
fsub neg_inf nan = nan
fsub neg_inf _ = neg_inf

-- a + b
unfoldable pub fadd : Float → Float → Float
fadd nan b = nan
fadd (finite x) (finite y) = finite (x +ℤ y)
fadd (finite x) b = b
fadd inf neg_inf = nan
fadd inf nan = nan
fadd inf _ = inf
fadd neg_inf inf = nan
fadd neg_inf nan = nan
fadd neg_inf _ = neg_inf

-- Python's `max(a, b)`: the first argument unless the second is greater
unfoldable pub fmax : Float → Float → Float
unfolding flt
fmax a b = if flt a b then b else a

-- A whole number of units, such as degrees or seconds
abbrev pub units : ℕ → Float
units n = finite (pos (n * 1000))

-- Order laws.
pub fle_trans : (a b c : Float) → fle a b ≡ true → fle b c ≡ true → fle a c ≡ true
unfolding fle
fle_trans a b c h k = ground arith

pub flt-fle_trans : (a b c : Float) → flt a b ≡ true → fle b c ≡ true → flt a c ≡ true
unfolding fle flt
flt-fle_trans a b c h k = ground arith

pub fle-flt_trans : (a b c : Float) → fle a b ≡ true → flt b c ≡ true → flt a c ≡ true
unfolding fle flt
fle-flt_trans a b c h k = ground arith

pub flt_trans : (a b c : Float) → flt a b ≡ true → flt b c ≡ true → flt a c ≡ true
unfolding flt
flt_trans a b c h k = ground arith

pub flt-fle : (a b : Float) → flt a b ≡ true → fle a b ≡ true
unfolding fle flt
flt-fle a b h = ground arith

-- The two orders exclude one another, and between finite values one of them holds.
pub flt_asymm : (a b : Float) → flt a b ≡ true → fle b a ≡ false
unfolding fle flt
flt_asymm a b h = ground arith

pub flt_of_not-fle :
    (a b : Float) → is_finite a ≡ true → is_finite b ≡ true → fle a b ≡ false → flt b a ≡ true
unfolding fle flt is_finite
flt_of_not-fle a b ha hb h = ground arith
