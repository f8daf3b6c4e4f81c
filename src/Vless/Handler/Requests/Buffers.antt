-- ===== src/Vless/Handler/Requests/Buffers.antt =====
-- Reads of a buffer at a known place.
use native.Mathlib.Nat.{zero-add, suc-add}
use vgate_server.Base.{
  ℕ, zero, suc, ◌+◌, ◌-◌, ◌<◌, ◌≤◌, ◌≡◌, refl, ap, List, [], ◌∷◌, ◌++◌, some, true, arith, length,
  length-append, take, drop, take-append, drop-append, get_elem?, append-nil,
}
use vgate_server.Base.Text.{Bytes}
use vgate_server.Vless.Handler.Wire.{ok, panic, byte_at, slice, read_at_least, or_panic}

get_elem?-append :
    (pre : Bytes) (x : ℕ) (post : Bytes) → get_elem? (pre ++ x ∷ post) (length pre) ≡ some x
get_elem?-append [] x post = refl
get_elem?-append (y ∷ pre) x post = get_elem?-append pre x post

pub byte_at_lem :
    (buf pre : Bytes) (x : ℕ) (post : Bytes) (i : ℕ)
    → buf ≡ pre ++ x ∷ post
    → i ≡ length pre
    → byte_at buf i ≡ ok x
unfolding byte_at
byte_at_lem buf pre x post i b e = rw (b, e) (ap or_panic (get_elem?-append pre x post))

get_elem?-append_add :
    (pre xs : Bytes) (i : ℕ) → get_elem? (pre ++ xs) (length pre + i) ≡ get_elem? xs i
get_elem?-append_add [] xs i = rw zero-add
get_elem?-append_add (y ∷ pre) xs i = rw suc-add (get_elem?-append_add pre xs i)

-- The byte at a distance behind a prefix.
pub byte_at_add :
    (buf pre xs : Bytes) (curr i : ℕ)
    → buf ≡ pre ++ xs
    → curr ≡ length pre
    → byte_at buf (curr + i) ≡ or_panic (get_elem? xs i)
unfolding byte_at
byte_at_add buf pre xs curr i b c = rw (b, c) (ap or_panic (get_elem?-append_add pre xs i))

take_all : (xs : Bytes) (n : ℕ) → length xs ≤ n → take n xs ≡ xs
take_all [] zero h = refl
take_all [] (suc n) h = refl
take_all (x ∷ xs) zero h = absurd (omega arith)
take_all (x ∷ xs) (suc n) h = ap (λ t. x ∷ t) (take_all xs n (omega arith))

drop_all : (xs : Bytes) (n : ℕ) → length xs ≤ n → drop n xs ≡ []
drop_all [] zero h = refl
drop_all [] (suc n) h = refl
drop_all (x ∷ xs) zero h = absurd (omega arith)
drop_all (x ∷ xs) (suc n) h = drop_all xs n (omega arith)

add_sub : (pre mid : Bytes) → length pre + length mid - length pre ≡ length mid
add_sub pre mid = omega arith

pub slice_lem :
    (buf pre mid post : Bytes) (lo hi : ℕ)
    → buf ≡ pre ++ (mid ++ post)
    → lo ≡ length pre
    → hi ≡ length pre + length mid
    → slice buf lo hi ≡ ok mid
unfolding slice
slice_lem buf pre mid post lo hi b l h =
    rw (b, l, h)
      (rw (drop-append pre (mid ++ post)) (
        rw (add_sub pre mid) (
          rw (take-append mid post)
            (ground (arith, length-append pre (mid ++ post), length-append mid post)))))

-- A slice within the buffer.
pub slice_within :
    (buf : Bytes) (lo hi : ℕ)
    → lo ≤ hi
    → hi ≤ length buf
    → slice buf lo hi ≡ ok (take (hi - lo) (drop lo buf))
unfolding slice
slice_within buf lo hi h k = ground arith

-- A slice that ends before it begins.
pub slice_short : (buf : Bytes) (lo hi : ℕ) → hi < lo → slice buf lo hi ≡ panic
unfolding slice
slice_short buf lo hi h = ground arith

no_more : (min n : ℕ) → min ≤ n → min - n ≡ 0
no_more min n h = omega arith

-- A read of nothing.
pub read_none :
    (room : ℕ) (cs : List Bytes)
    → read_at_least 0 room cs ≡ record { got = []; sizes = []; enough = true; rest = cs }
unfolding read_at_least
read_none room [] = refl
read_none room (c ∷ cs) = refl

pub read_whole :
    (min room : ℕ) (c : Bytes) (cs : List Bytes)
    → 0 < min
    → min ≤ length c
    → length c ≤ room
    → read_at_least min room (c ∷ cs)
      ≡ record { got = c; sizes = length c ∷ []; enough = true; rest = cs }
unfolding read_at_least
read_whole min room c cs z h k =
    rw (take_all c room k, drop_all c room k, no_more min (length c) h)
      (rw (read_none (room - length c) cs) (ground (arith, append-nil c)))
