-- ===== src/Guest/Memory/Above.antt =====
-- Memory from an address on that a write leaves alone.
use prephv.Base.{
  ℕ, zero, suc, ◌+◌, ◌^◌, ◌≤◌, ◌<◌, ◌≡◌, refl, arith, List, [], ◌∷◌, ◌∙◌, length, replicate, take,
}
use prephv.Guest.Memory.{Memory, store8, load32, store32, store_bytes, load_bytes}

abbrev pub SameAbove : ℕ → Memory → Memory → Type 0
SameAbove top before after = (a : ℕ) → top ≤ a → after a ≡ before a

pub SameAbove-refl : (top : ℕ) (m : Memory) → SameAbove top m m
SameAbove-refl top m a h = refl

pub SameAbove-trans :
    (top : ℕ) (m n o : Memory) → SameAbove top m n → SameAbove top n o → SameAbove top m o
SameAbove-trans top m n o p q a h = q a h ∙ p a h

pub store32-SameAbove :
    (top : ℕ) (m : Memory) (a v : ℕ) → a + 4 ≤ top → SameAbove top m (store32 m a v)
unfolding store32
store32-SameAbove top m a v h b le = ground arith

pub store_bytes-SameAbove :
    (top : ℕ) (m : Memory) (a : ℕ) (vs : List ℕ)
    → a + length vs ≤ top
    → SameAbove top m (store_bytes m a vs)
unfolding store_bytes
store_bytes-SameAbove top m a [] h = SameAbove-refl top m
store_bytes-SameAbove top m a (v ∷ vs) h =
    SameAbove-trans top m (store8 m a v) _ (λ b le. ground arith)
      (store_bytes-SameAbove top (store8 m a v) (a + 1) vs (omega arith))

pub load32-lt : (m : Memory) (a : ℕ) → load32 m a < 2 ^ 32
unfolding load32
load32-lt m a = omega arith

pub length-load_bytes : (m : Memory) (a n : ℕ) → length (load_bytes m a n) ≡ n
unfolding load_bytes
length-load_bytes m a zero = refl
length-load_bytes m a (suc n) = let h = length-load_bytes m (a + 1) n in omega arith

pub length-replicate : (n v : ℕ) → length (replicate n v) ≡ n
length-replicate zero v = refl
length-replicate (suc n) v = let h = length-replicate n v in omega arith

pub length-take : (n : ℕ) (vs : List ℕ) → length (take n vs) ≤ n
length-take zero vs = omega arith
length-take (suc n) [] = omega arith
length-take (suc n) (v ∷ vs) = let h = length-take n vs in omega arith
