-- ===== src/Fat/Roundtrip.antt =====
-- Reading kernel/src/fs/fat.rs's table after a write to it.
use emerald.Prelude.{
  ℕ, zero, suc, ◌+◌, ◌-◌, ◌*◌, ◌/◌, ◌%◌, ◌^◌, ◌<◌, ◌≡◌, ◌≢◌, ap, ◌∙◌, List, [], ◌∷◌, arith, All,
  length, length-set, get_or-set, set, ◌==◌, if◌then◌else◌, Bool-cases, inl, inr,
}
use emerald.Fat.Entry.{fat12, fat16, fat32}
use emerald.Fat.Table.{byte, raw_entry, put_entry}

abbrev pub IsByte : ℕ → Type 0
IsByte n = n < 256

pub byte-lt : (b : List ℕ) (i : ℕ) → All IsByte b → byte b i < 256
byte-lt [] i h = omega arith
byte-lt (x ∷ b) zero h = h.0
byte-lt (x ∷ b) (suc i) h = byte-lt b i h.1

-- Two writes next to each other, read anywhere.
byte-set₂ :
    (b : List ℕ) (at x y i : ℕ)
    → at + 1 < length b
    → byte (set (set b at x) (at + 1) y) i
      ≡ (if at + 1 == i then y else if at == i then x else byte b i)
byte-set₂ b at x y i h =
    get_or-set (set b at x) (at + 1) i y 0 (rw (length-set b at x) h)
    ∙ ap (λ t. if at + 1 == i then y else t) (get_or-set b at i x 0 (omega arith))

byte-set₄ :
    (b : List ℕ) (at x y z w i : ℕ)
    → at + 3 < length b
    → byte (set (set (set (set b at x) (at + 1) y) (at + 2) z) (at + 3) w) i ≡ (
        if at + 3 == i
        then w
        else if at + 2 == i
        then z
        else if at + 1 == i
        then y
        else if at == i
        then x
        else byte b i)
byte-set₄ b at x y z w i h =
    get_or-set (set (set (set b at x) (at + 1) y) (at + 2) z) (at + 3) i w 0 (
      rw
        (
          length-set (set (set b at x) (at + 1) y) (at + 2) z,
          length-set (set b at x) (at + 1) y,
          length-set b at x,
        )
        h)
    ∙ ap (λ t. if at + 3 == i then w else t)
        (get_or-set (set (set b at x) (at + 1) y) (at + 2) i z 0
            (rw (length-set (set b at x) (at + 1) y, length-set b at x) (omega arith))
          ∙ ap (λ t. if at + 2 == i then z else t) (byte-set₂ b at x y i (omega arith)))

module _ (b : List ℕ) (entry n : ℕ) (bytes : All IsByte b) where
  pub raw-put12_self :
      entry * 3 / 2 + 1 < length b
      → n < 0x1000
      → raw_entry fat12 (put_entry fat12 b entry n) entry ≡ n
  unfolding raw_entry put_entry
  raw-put12_self h lt =
      let at = entry * 3 / 2 in
      ground (
        arith,
        lt,
        h,
        byte-set₂ b at (byte b at % 16 + n * 16 % 256) (n / 16 % 256) at h,
        byte-set₂ b at (byte b at % 16 + n * 16 % 256) (n / 16 % 256) (at + 1) h,
        byte-set₂ b at (n % 256) (byte b (at + 1) - byte b (at + 1) % 16 + n / 256 % 256) at h,
        byte-set₂ b at (n % 256) (byte b (at + 1) - byte b (at + 1) % 16 + n / 256 % 256) (at + 1)
            h,
      )

  pub raw-put12_other :
      (j : ℕ)
      → entry * 3 / 2 + 1 < length b
      → j ≢ entry
      → n < 0x1000
      → raw_entry fat12 (put_entry fat12 b entry n) j ≡ raw_entry fat12 b j
  unfolding raw_entry put_entry
  raw-put12_other j h ne lt = elim (Bool-cases (entry % 2 == 1)) [
    | inl odd ↦ rw odd (
        let x = byte b (entry * 3 / 2) % 16 + n * 16 % 256 in
        let y = n / 16 % 256 in
        ground (
          arith,
          h,
          odd,
          ne,
          byte-set₂ b (entry * 3 / 2) x y (j * 3 / 2) h,
          byte-set₂ b (entry * 3 / 2) x y (j * 3 / 2 + 1) h,
          byte-lt b (entry * 3 / 2) bytes,
        ))
    | inr even ↦ rw even (
        let x = n % 256 in
        let y = byte b (entry * 3 / 2 + 1) - byte b (entry * 3 / 2 + 1) % 16 + n / 256 % 256 in
        ground (
          arith,
          h,
          even,
          ne,
          lt,
          byte-set₂ b (entry * 3 / 2) x y (j * 3 / 2) h,
          byte-set₂ b (entry * 3 / 2) x y (j * 3 / 2 + 1) h,
        ))
  ]

  pub raw-put16 :
      (j : ℕ)
      → entry * 2 + 1 < length b
      → n < 0x10000
      → raw_entry fat16 (put_entry fat16 b entry n) j
        ≡ (if j == entry then n else raw_entry fat16 b j)
  unfolding raw_entry put_entry
  raw-put16 j h lt = ground (
    arith,
    h,
    lt,
    byte-set₂ b (entry * 2) (n % 256) (n / 256 % 256) (j * 2) h,
    byte-set₂ b (entry * 2) (n % 256) (n / 256 % 256) (j * 2 + 1) h,
  )

  pub raw-put32 :
      (j : ℕ)
      → entry * 4 + 3 < length b
      → n < 2 ^ 28
      → raw_entry fat32 (put_entry fat32 b entry n) j
        ≡ (if j == entry then n else raw_entry fat32 b j)
  unfolding raw_entry put_entry
  raw-put32 j h lt =
      let x = n % 256 in
      let y = n / 256 % 256 in
      let z = n / (256 * 256) % 256 in
      let w = n / (256 * 256 * 256) % 256 in
      elim (Bool-cases (j == entry)) [
        | inl same ↦ rw same (
            ground (
              arith,
              h,
              lt,
              same,
              byte-set₄ b (entry * 4) x y z w (j * 4) h,
              byte-set₄ b (entry * 4) x y z w (j * 4 + 1) h,
              byte-set₄ b (entry * 4) x y z w (j * 4 + 2) h,
              byte-set₄ b (entry * 4) x y z w (j * 4 + 3) h,
            ))
        | inr other ↦ rw other (
            ground (
              arith,
              h,
              other,
              byte-set₄ b (entry * 4) x y z w (j * 4) h,
              byte-set₄ b (entry * 4) x y z w (j * 4 + 1) h,
              byte-set₄ b (entry * 4) x y z w (j * 4 + 2) h,
              byte-set₄ b (entry * 4) x y z w (j * 4 + 3) h,
            ))
      ]
