-- ===== src/Publish/Body.antt =====
-- The loop of `_receive_firmware_body` ends, and with the whole body or at an empty read.
use ota_server.Base.{
  ℕ, zero, suc, ◌+◌, ◌-◌, ◌≤◌, ◌<◌, ◌≡◌, ◌⊎◌, refl, ap, sym, ◌∙◌, Text, [], ◌∷◌, ◌++◌, true, ◌==◌,
  length, length-append, arith, Bool-cases, inl, inr,
}
use ota_server.Publish.{Received, body, truncated, receive, block_size}

-- `rfile.read(n)` returns at most n bytes.
abbrev pub ReadsAtMost : (ℕ → ℕ → Text) → Type 0
ReadsAtMost read = (k n : ℕ) → length (read k n) ≤ n

-- What the first k reads deliver, if each asks for a block of what is left of `size` bytes.
unfoldable pub delivered : (ℕ → ℕ → Text) → ℕ → ℕ → Text
delivered read size zero = []
delivered read size (suc k) =
    let got = delivered read size k in got ++ read k (block_size (size - length got))

-- How a reception may end: the bytes of the first k reads are the body, of the announced size; or they
-- are fewer, and the next read, for a block of what is left, is empty.
abbrev pub Ends : (ℕ → ℕ → Text) → ℕ → Received → Type 0
Ends read size r =
    ((k : ℕ) × (r ≡ body (delivered read size k)) × (length (delivered read size k) ≡ size))
    ⊎ ((r ≡ truncated)
        × (k : ℕ) × (length (delivered read size k) < size)
        × (read k (block_size (size - length (delivered read size k))) ≡ []))

length-zero : (s : Text) → (length s == 0) ≡ true → s ≡ []
length-zero [] h = refl
length-zero (c ∷ s) h = ground (arith, h)

block_size-le : (n : ℕ) → block_size n ≤ n
block_size-le n = ground arith

receive-done :
    (read : ℕ → ℕ → Text) (rounds remaining k : ℕ) (got : Text)
    → (remaining == 0) ≡ true
    → receive read rounds remaining k got ≡ body got
unfolding receive
receive-done read zero remaining k got h = rw h
receive-done read (suc rounds) remaining k got h = rw h

at_size :
    (read : ℕ → ℕ → Text) (size rounds remaining k : ℕ) (got : Text)
    → delivered read size k ≡ got
    → length got + remaining ≡ size
    → (remaining == 0) ≡ true
    → Ends read size (receive read rounds remaining k got)
at_size read size rounds remaining k got e sum none_left = inl (
  k,
  receive-done read rounds remaining k got none_left ∙ ap body (sym e),
  ap length e ∙ ground (arith, sum, none_left),
)

receive-Ends :
    (read : ℕ → ℕ → Text) (size rounds remaining k : ℕ) (got : Text)
    → ReadsAtMost read
    → remaining ≤ rounds
    → delivered read size k ≡ got
    → length got + remaining ≡ size
    → Ends read size (receive read rounds remaining k got)
unfolding receive
receive-Ends read size zero remaining k got most le e sum =
    at_size read size zero remaining k got e sum (ground (arith, le))
receive-Ends read size (suc rounds) remaining k got most le e sum =
    elim (Bool-cases (remaining == 0)) [
      | inl none_left ↦ at_size read size (suc rounds) remaining k got e sum none_left
      | inr some_left ↦ elim (Bool-cases (length (read k (block_size remaining)) == 0)) [
        | inl empty ↦ inr (
          rw (some_left, empty),
          k,
          rw e (ground (arith, sum, some_left)),
          rw (e, left got remaining sum) (length-zero _ empty),
        )
        | inr block ↦
            let b = read k (block_size remaining) in
            let at_most = most k (block_size remaining) in
            let limit = block_size-le remaining in
            let one : 1 ≤ length b = ground (arith, block) in
            rw (some_left, block)
              (receive-Ends read size rounds (remaining - length b) (suc k) (got ++ b) most
                (omega (arith, one, le)) (next got remaining e sum)
                (omega (arith, length-append got b, sum, at_most, limit)))
      ]
    ]
  where
    left :
        (got : Text) (remaining : ℕ) → length got + remaining ≡ size → size - length got ≡ remaining
    left got remaining sum = omega (arith, sum)

    next :
        (got : Text) (remaining : ℕ)
        → delivered read size k ≡ got
        → length got + remaining ≡ size
        → delivered read size (suc k) ≡ got ++ read k (block_size remaining)
    next got remaining e sum = unfold delivered in rw (e, left got remaining sum)

-- The reception of a body always ends: if `rfile.read` returns at most the bytes that it is asked for,
-- then with as many rounds as announced bytes the loop either has received exactly that many bytes, those
-- of its reads in order, or has met an empty read for a block of what was left, while bytes were missing.
pub receive_total :
    (read : ℕ → ℕ → Text) (size : ℕ)
    → ReadsAtMost read
    → Ends read size (receive read size size 0 [])
unfolding delivered
receive_total read size most =
    receive-Ends read size size size 0 [] most (omega arith) refl (omega arith)
