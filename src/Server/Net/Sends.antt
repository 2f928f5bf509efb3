-- ===== src/Server/Net/Sends.antt =====
-- What `write_all` sends, and that it ends.
use droidmirror.Base.{
  ℕ, zero, suc, ◌+◌, ◌<◌, ◌≤◌, ◌≡◌, refl, sym, ap, ◌∙◌, arith, none, some, List, [], ◌∷◌, ◌++◌,
  length, take, drop, append-nil, append_assoc, take-append-drop, length-drop, ◌⊎◌,
}
use droidmirror.Base.Result.{Result, ok, err}
use droidmirror.Server.Net.{
  ErrorKind, interrupted, would_block, other, NetError, os, Socket, SocketLaws, Written,
  after_write, write_all,
}

-- An error that `write_all` gives back: one that is not for a moment.
abbrev pub IsLasting : NetError → Type 0
IsLasting (os (other code)) = Unit
IsLasting _ = ⊥

module _ {N : Type 0} (sock : Socket N) (laws : SocketLaws sock) where
  open laws use {sent, wrote, failed, sleeps}

  -- What has been sent when `write_all` of `buf` returns: all of it; or, with an error, a proper
  -- front of it.
  abbrev pub Sends : List ℕ → N → Written N → Type 0
  Sends buf w none = Unit
  Sends buf w (some (ok u, w')) = sent w' ≡ sent w ++ buf
  Sends buf w (some (err e, w')) =
      (k : ℕ) × (k < length buf) × (sent w' ≡ sent w ++ take k buf) × IsLasting e

  -- From a state that has sent the same.
  Sends-same :
      (buf : List ℕ) (w w1 : N) (r : Written N) → sent w1 ≡ sent w → Sends buf w1 r → Sends buf w r
  Sends-same buf w w1 none es h = tt
  Sends-same buf w w1 (some (ok u, w')) es h = h ∙ ap (λ l. l ++ buf) es
  Sends-same buf w w1 (some (err e, w')) es (k, short, h, lasts) =
      (k, short, h ∙ ap (λ l. l ++ take k buf) es, lasts)

  zero_add : (k : ℕ) → k ≡ 0 + k
  zero_add k = omega arith

  add_suc : (n k : ℕ) → suc n + k ≡ suc (n + k)
  add_suc n k = omega arith

  take-more : {A : Type 0} (n k : ℕ) (l : List A) → take n l ++ take k (drop n l) ≡ take (n + k) l
  take-more zero k l = ap (λ m. take m l) (zero_add k)
  take-more (suc n) zero [] = rw (add_suc n zero) refl
  take-more (suc n) (suc k) [] = rw (add_suc n (suc k)) refl
  take-more (suc n) k (x ∷ l) = rw (add_suc n k, take-more n k l)

  -- After `n` bytes.
  Sends-more :
      (n : ℕ) (buf : List ℕ) (w w1 : N) (r : Written N)
      → n ≤ length buf
      → sent w1 ≡ sent w ++ take n buf
      → Sends (drop n buf) w1 r
      → Sends buf w r
  Sends-more n buf w w1 none le es h = tt
  Sends-more n buf w w1 (some (ok u, w')) le es h =
      h
      ∙ ap (λ l. l ++ drop n buf) es
      ∙ append_assoc (sent w) (take n buf) (drop n buf)
      ∙ ap (λ l. sent w ++ l) (take-append-drop n buf)
  Sends-more n buf w w1 (some (err e, w')) le es (k, short, h, lasts) = (
    n + k,
    omega (arith, length-drop n buf, short, le),
    h
        ∙ ap (λ l. l ++ take k (drop n buf)) es
        ∙ append_assoc (sent w) (take n buf) (take k (drop n buf))
        ∙ ap (λ l. sent w ++ l) (take-more n k buf),
    lasts,
  )

  module _ (again : List ℕ → N → Written N)
      (later : (buf : List ℕ) (w : N) → Sends buf w (again buf w)) where
    after_write-Sends :
        (b : ℕ) (bs : List ℕ) (w w' : N) (r : Result ErrorKind ℕ)
        → sock.write (b ∷ bs) w ≡ (r, w')
        → Sends (b ∷ bs) w (after_write sock again (b ∷ bs) (r, w'))
    after_write-Sends b bs w w' (err interrupted) e =
        Sends-same (b ∷ bs) w w' _ (failed (b ∷ bs) w w' interrupted e) (later (b ∷ bs) w')
    after_write-Sends b bs w w' (err would_block) e =
        Sends-same (b ∷ bs) w (sock.sleep_ms 2 w') _
          (sleeps 2 w' ∙ failed (b ∷ bs) w w' would_block e) (later (b ∷ bs) (sock.sleep_ms 2 w'))
    after_write-Sends b bs w w' (err (other code)) e =
        (0, omega arith, failed (b ∷ bs) w w' (other code) e ∙ sym (append-nil (sent w)), tt)
    after_write-Sends b bs w w' (ok zero) e = absurd (omega (arith, (wrote b bs w w' zero e).0))
    after_write-Sends b bs w w' (ok (suc n)) e =
        let (some_bytes, le, es) = wrote b bs w w' (suc n) e in
        Sends-more (suc n) (b ∷ bs) w w' _ le es (later (drop (suc n) (b ∷ bs)) w')

  -- `write_all`, when it returns: the whole buffer, or an error and a proper front of it.
  pub write_all-Sends : (fuel : ℕ) (buf : List ℕ) (w : N) → Sends buf w (write_all sock fuel buf w)
  unfolding write_all
  write_all-Sends fuel [] w = sym (append-nil (sent w))
  write_all-Sends zero (b ∷ bs) w = tt
  write_all-Sends (suc fuel) (b ∷ bs) w =
      after_write-Sends (write_all sock fuel) (write_all-Sends fuel) b bs w
        (sock.write (b ∷ bs) w).1 (sock.write (b ∷ bs) w).0 refl

  -- A peer that reads on: the times that a `write` will be put off from here.
  pub record Draining : Type 0 where
    pub stalls : N → ℕ
    pub moves :
        (bs : List ℕ) (w w' : N) (n : ℕ) → sock.write bs w ≡ (ok n, w') → stalls w' ≤ stalls w
    pub put_off :
        (bs : List ℕ) (w w' : N)
        → (sock.write bs w ≡ (err interrupted, w')) ⊎ (sock.write bs w ≡ (err would_block, w'))
        → stalls w' < stalls w
    pub waits : (ms : ℕ) (w : N) → stalls (sock.sleep_ms ms w) ≤ stalls w

  module _ (drains : Draining) where
    open drains use {stalls, moves, put_off, waits}

    abbrev Returns : Written N → Type 0
    Returns r = (out : Result NetError (Unit {0}) × N) × (r ≡ some out)
