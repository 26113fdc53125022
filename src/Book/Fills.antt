-- ===== src/Book/Fills.antt =====
-- What matching promises, with no book: makers stand in one list, best first, and an order of a
-- given size takes from them in turn.
use cex_matching_engine.Prelude.{
  ℕ, ◌-◌, ◌≡◌, refl, min, List, [], ◌∷◌, ◌++◌, arith, leb, nat_eqb, if◌then◌else◌, sum_of,
}
use cex_matching_engine.Book.Types.{Order}

abbrev pub remaining : Order → ℕ
remaining o = o.remaining_size

abbrev pub volume : List Order → ℕ
volume = sum_of remaining

-- A maker and how much of it is taken.
abbrev pub Fill : Type 0
Fill = Order × ℕ

-- The makers that an order of size `n` trades with, and how much of each.
unfoldable pub fills : ℕ → List Order → List Fill
fills n [] = []
fills n (m ∷ ms) =
    let later = fills (n - m.remaining_size) ms in
    if nat_eqb n 0 then [] else (m, min n m.remaining_size) ∷ later

abbrev pub shrink : ℕ → Order → Order
shrink n m = record m { remaining_size = m.remaining_size - n }

-- The makers that are left after that.
unfoldable pub left_over : ℕ → List Order → List Order
left_over n [] = []
left_over n (m ∷ ms) =
    let later = left_over (n - m.remaining_size) ms in
    if nat_eqb n 0 then m ∷ ms else if leb m.remaining_size n then later else shrink n m ∷ ms

abbrev pub fill_qty : Fill → ℕ
fill_qty f = f.1

pub fills-zero : (ms : List Order) → fills 0 ms ≡ []
unfolding fills
fills-zero [] = refl
fills-zero (m ∷ ms) = refl

pub left_over-zero : (ms : List Order) → left_over 0 ms ≡ ms
unfolding left_over
left_over-zero [] = refl
left_over-zero (m ∷ ms) = refl

-- The quantity that is traded is the size, or all there is.
pub sum_of-fills : (n : ℕ) (ms : List Order) → sum_of fill_qty (fills n ms) ≡ min n (volume ms)
unfolding fills
sum_of-fills n [] = omega arith
sum_of-fills n (m ∷ ms) = ground (arith, sum_of-fills (n - m.remaining_size) ms)

pub volume-left_over : (n : ℕ) (ms : List Order) → volume (left_over n ms) ≡ volume ms - n
unfolding left_over
volume-left_over n [] = omega arith
volume-left_over n (m ∷ ms) = ground (arith, volume-left_over (n - m.remaining_size) ms)

-- What a queue leaves goes to the next.
pub fills-append :
    (n : ℕ) (ms ns : List Order) → fills n (ms ++ ns) ≡ fills n ms ++ fills (n - volume ms) ns
unfolding fills
fills-append n [] ns = ground arith
fills-append n (m ∷ ms) ns =
    ground (arith, fills-append (n - m.remaining_size) ms ns, fills-zero ns)
