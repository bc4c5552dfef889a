-- ===== src/Net/Write.antt =====
-- `write`, the loop that writes a whole slice (internal/base/net/packet.go).
use ggs.Prelude.{
  ℕ, zero, suc, ◌+◌, ◌-◌, ◌%◌, ◌^◌, ◌≤◌, ◌<◌, ◌≡◌, refl, sym, ap, ◌∙◌, inl, inr, Option, none, some,
  List, ◌++◌, append_assoc, append-nil, arith, ltb, if◌then◌else◌, Bool-cases, Option-cases, length,
  take, drop, take-add, length-drop, take-length, ◌⊎◌,
}

abbrev pub Bytes : Type 0
Bytes = List ℕ

abbrev pub u32 : ℕ → ℕ
u32 n = n % 2 ^ 32

-- What one call of `Write` returns: how many bytes it took, and an error.
pub record Written : Type 0 where
  pub n : ℕ
  pub failed : Option ℕ

-- `io.Writer`, with the bytes that have gone out so far.
pub record Writer : Type 1 where
  pub W : Type 0
  pub write : Bytes → W → Written × W
  pub sent : W → Bytes

-- The contract that the documentation of `io.Writer` states, less its last clause: a call takes a
-- prefix of its argument and sends it. A short write need not be an error, as long as every call
-- without an error takes at least one byte.
pub record IsWriter (c : Writer) : Type 0 where
  pub at_most : (p : Bytes) (w : c.W) → (c.write p w).0.n ≤ length p
  pub progress :
      (p : Bytes) (w : c.W) → 0 < length p → (c.write p w).0.failed ≡ none → 0 < (c.write p w).0.n
  pub sends : (p : Bytes) (w : c.W) → c.sent (c.write p w).1 ≡ c.sent w ++ take (c.write p w).0.n p

module _ (c : Writer) where
  open c use {W, sent}

  -- `none` is a loop that has not ended when the fuel runs out.
  unfoldable pub write_loop : ℕ → ℕ → ℕ → Bytes → W → Option (Option ℕ × W)
  write_loop zero total written p w = none
  write_loop (suc fuel) total written p w =
      let (r, w') = c.write (drop written p) w in
      let rest = write_loop fuel total (u32 (written + u32 r.n)) p w' in
      if ltb written total
      then elim r.failed [ none ↦ rest | some e ↦ some (some e, w') ]
      else some (none, w)

  -- One round of fuel for each byte, and one to see the end.
  unfoldable pub write : Bytes → W → Option (Option ℕ × W)
  write p w = write_loop (suc (u32 (length p))) (u32 (length p)) 0 p w

  -- The loop returned `r`: without an error all of `p` has gone out, with one a prefix of it.
  pub record Writes (p : Bytes) (before : Bytes) (r : Option ℕ × W) : Type 0 where
    pub count : ℕ
    pub prefix : sent r.1 ≡ before ++ take count p
    pub all : r.0 ≡ none → length p ≤ count

  module _ (law : IsWriter c) where
    sent-write :
        (written n : ℕ) (p : Bytes) (w : W) (before : Bytes)
        → (c.write (drop written p) w).0.n ≡ n
        → sent w ≡ before ++ take written p
        → sent (c.write (drop written p) w).1 ≡ before ++ take (written + n) p
    sent-write written n p w before e h =
        law.sends (drop written p) w
        ∙ rw (e, h) (append_assoc before _ _ ∙ ap (◌++◌ before) (take-add written n _ p refl))

    write_loop-Writes :
        (fuel written : ℕ) (p : Bytes) (w : W) (before : Bytes)
        → length p < 2 ^ 32
        → written ≤ length p
        → length p - written < fuel
        → sent w ≡ before ++ take written p
        → (r : Option ℕ × W) × (write_loop fuel (length p) written p w ≡ some r) × Writes p before r
    unfolding write_loop
    write_loop-Writes zero written p w before small le enough h = absurd (omega arith)
    write_loop-Writes (suc fuel) written p w before small le enough h =
        elim (Bool-cases (ltb written (length p))) [
          | inr e ↦
              rw e
                ((none, w), refl, record { count = written; prefix = h; all = λ _. ground arith })
          | inl e ↦ elim (Option-cases (c.write (drop written p) w).0.failed) [
            | inr (x, f) ↦
                rw (e, f)
                  (
                    (some x, w'),
                    refl,
                    record {
                      count = written + n;
                      prefix = sent-write written n p w before refl h;
                      all = λ (q : some x ≡ none). cc;
                    },
                  )
            | inl f ↦
                let grows : 0 < n =
                  law.progress (drop written p) w (ground (arith, length-drop written p)) f in
                let within : n ≤ length p - written =
                  omega (arith, law.at_most (drop written p) w, length-drop written p) in
                let next : u32 (written + u32 n) ≡ written + n = omega arith in
                rw (e, f, next)
                  (write_loop-Writes fuel (written + n) p w' before small (ground arith)
                    (ground arith) (sent-write written n p w before refl h))
          ]
        ]
      where
        n : ℕ
        n = (c.write (drop written p) w).0.n

        w' : W
        w' = (c.write (drop written p) w).1

    -- The loop ends, and without an error exactly the bytes of `p` have gone out.
    write_total :
        (p : Bytes) (w : W)
        → length p < 2 ^ 32
        → (r : Option ℕ × W) × (write p w ≡ some r) × Writes p (sent w) r
    unfolding write
    write_total p w small =
        let e : u32 (length p) ≡ length p = omega arith in
        rw e (
          write_loop-Writes (suc (length p)) 0 p w (sent w) small (omega arith) (omega arith)
            (sym (append-nil (sent w))))

    pub write_cases :
        (p : Bytes) (w : W)
        → length p < 2 ^ 32
        → ((e : ℕ) × (w' : W) × (write p w ≡ some (some e, w')))
          ⊎ ((w' : W) × (write p w ≡ some (none, w')) × (sent w' ≡ sent w ++ p))
    write_cases p w small = split (write_total p w small)
      where
        split :
            (r : Option ℕ × W) × (write p w ≡ some r) × Writes p (sent w) r
            → ((e : ℕ) × (w' : W) × (write p w ≡ some (some e, w')))
              ⊎ ((w' : W) × (write p w ≡ some (none, w')) × (sent w' ≡ sent w ++ p))
        split ((some e, w'), q, h) = inl (e, w', q)
        split ((none, w'), q, h) =
            inr (w', q, h.prefix ∙ ap (◌++◌ (sent w)) (take-length h.count p (h.all refl)))
