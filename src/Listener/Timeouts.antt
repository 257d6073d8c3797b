-- ===== src/Listener/Timeouts.antt =====
-- `session_timeout_loop` of mqtt_listener.py: which sessions leave the table.
use ota_server.Base.{
  ℕ, ◌+◌, ◌≡◌, refl, sym, ap, ◌∙◌, Text, Option, none, some, [], ◌∷◌, true, false, if◌then◌else◌,
  leb, text_eq, text_eq→eq, Dict, get, remove_key, get-remove_key, arith, Bool-cases, Option-cases,
  inl, inr,
}
use ota_server.Transport.{SecureSession}
use ota_server.Listener.State.{Listener, is_expired, expire, timeout_pass}

-- No key stands twice.
abbrev pub HasUniqueKeys : Dict SecureSession → Type 0
HasUniqueKeys [] = Unit {0}
HasUniqueKeys ((k, s) ∷ d) = (get k d ≡ none) × HasUniqueKeys d

-- A key that the loop does not meet keeps its entry.
get-expire_missing :
    (mono : ℕ) (k : Text) (items d : Dict SecureSession)
    → get k items ≡ none
    → get k (expire mono items d) ≡ get k d
unfolding expire get
get-expire_missing mono k [] d h = refl
get-expire_missing mono k ((j, s) ∷ items) d h = ground (
  arith,
  h,
  get-remove_key j k d,
  get-expire_missing mono k items (if is_expired mono s then remove_key j d else d),
)

-- What the table holds for a key after the pass.
abbrev pub live : ℕ → Option SecureSession → Option SecureSession
live mono none = none
live mono (some s) = if leb (s.created_mono + 120) mono then none else some s

get-expire :
    (mono : ℕ) (k : Text) (s : SecureSession) (items d : Dict SecureSession)
    → HasUniqueKeys items
    → get k items ≡ some s
    → get k (expire mono items d) ≡ (if is_expired mono s then none else get k d)
unfolding expire get
get-expire mono k s [] d unique h = ground arith
get-expire mono k s ((j, r) ∷ items) d (new, unique) h = elim (Bool-cases (text_eq j k)) [
  | inl same ↦
      let e = text_eq→eq j k same in
      get-expire_missing mono k items (if is_expired mono r then remove_key j d else d)
        (rw e at new)
      ∙ ground (arith, h, same, get-remove_key j k d, ap (is_expired mono) (same_session same h))
  | inr other ↦
      get-expire mono k s items (if is_expired mono r then remove_key j d else d) unique
        (sym (skip other) ∙ h)
      ∙ ground (arith, other, get-remove_key j k d)
]
  where
    same_session : text_eq j k ≡ true → get k ((j, r) ∷ items) ≡ some s → r ≡ s
    same_session same h' = ground (arith, same, h')

    skip : text_eq j k ≡ false → get k ((j, r) ∷ items) ≡ get k items
    skip other = rw other

-- With distinct keys in the table, one pass of the timeout loop at monotonic time `mono` removes a
-- session exactly if it was created 120 seconds or more before, and leaves every other as it is.
pub timeout_pass-live :
    (now mono : ℕ) (k : Text) (l : Listener)
    → HasUniqueKeys l.pending_sessions
    → get k (timeout_pass now mono l).pending_sessions ≡ live mono (get k l.pending_sessions)
unfolding timeout_pass is_expired
timeout_pass-live now mono k l unique = elim (Option-cases (get k l.pending_sessions)) [
  | inl missing ↦
      get-expire_missing mono k l.pending_sessions l.pending_sessions missing
      ∙ missing
      ∙ sym (ap (live mono) missing)
  | inr (s, there) ↦
      get-expire mono k s l.pending_sessions l.pending_sessions unique there ∙ rw there
]
