-- ===== src/Base/Queues.antt =====
-- The loop `while (!queue.empty() && out.size() < max_count)` that pops the front of a queue, which
-- XRead of infrastructure/storage/redis/redis_client.cpp and Pop of infrastructure/mq/core/local_bus.h
-- share; `f` is what is kept of a message.
use Prim.Native.Nat.{ℕ, zero, suc, ◌+◌}
use mathlib.Core.Path.{◌≡◌, refl}
use mathlib.Core.Bool.{true, false}
use mathlib.Core.List.{List, [], ◌∷◌, ◌++◌, map}
use native.Mathlib.Omega.{arith}
use kd.Base.Tests.{ltb, if◌then◌else◌}
use kd.Base.Lists.{length, take, drop, length-append}

module _ {ℓ} {A : Type ℓ} where
  pub append_assoc : (xs ys zs : List A) → (xs ++ ys) ++ zs ≡ xs ++ (ys ++ zs)
  append_assoc [] ys zs = refl
  append_assoc (x ∷ xs) ys zs = rw (append_assoc xs ys zs)

  pub append_nil : (xs : List A) → xs ++ [] ≡ xs
  append_nil [] = refl
  append_nil (x ∷ xs) = rw (append_nil xs)

pub map-append {ℓ} :
    {A B : Type ℓ} (f : A → B) (xs ys : List A) → map f (xs ++ ys) ≡ map f xs ++ map f ys
map-append f [] ys = refl
map-append f (x ∷ xs) ys = rw (map-append f xs ys)

pub map-take {ℓ} :
    {A B : Type ℓ} (f : A → B) (n : ℕ) (xs : List A) → map f (take n xs) ≡ take n (map f xs)
map-take f zero xs = refl
map-take f (suc n) [] = refl
map-take f (suc n) (x ∷ xs) = rw (map-take f n xs)

pub map-drop {ℓ} :
    {A B : Type ℓ} (f : A → B) (n : ℕ) (xs : List A) → map f (drop n xs) ≡ drop n (map f xs)
map-drop f zero xs = refl
map-drop f (suc n) [] = refl
map-drop f (suc n) (x ∷ xs) = map-drop f n xs

module _ {ℓ} {A B : Type ℓ} (f : A → B) where
  unfoldable pub drain : (max_count : ℕ) → List B → List A → List B × List A
  drain max_count out [] = (out, [])
  drain max_count out (m ∷ queue) =
      let more = drain max_count (out ++ f m ∷ []) queue in
      if ltb (length out) max_count then more else (out, m ∷ queue)

  drain_lem :
      (n max_count : ℕ) (out : List B) (queue : List A)
      → length out + n ≡ max_count
      → drain max_count out queue ≡ (out ++ map f (take n queue), drop n queue)
  unfolding drain
  drain_lem zero max_count out [] h = rw (append_nil out) refl
  drain_lem zero max_count out (m ∷ queue) h =
      let full : ltb (length out) max_count ≡ false = ground arith in rw (full, append_nil out) refl
  drain_lem (suc n) max_count out [] h = rw (append_nil out) refl
  drain_lem (suc n) max_count out (m ∷ queue) h =
      let room : ltb (length out) max_count ≡ true = ground arith in
      rw
        (
          room,
          drain_lem n max_count (out ++ f m ∷ []) queue
              (omega (arith, length-append out (f m ∷ []))),
          append_assoc out (f m ∷ []) (map f (take n queue)),
        )
        refl

  -- The loop takes the first `max_count` messages, in order, and leaves the others.
  pub drain-take :
      (max_count : ℕ) (queue : List A)
      → drain max_count [] queue ≡ (map f (take max_count queue), drop max_count queue)
  drain-take max_count queue = drain_lem max_count max_count [] queue (omega arith)
