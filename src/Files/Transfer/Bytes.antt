-- ===== src/Files/Transfer/Bytes.antt =====
-- The bytes that `filewrite` puts into an inode.
use operating_systems.Prelude.{
  ℕ, zero, suc, ◌+◌, ◌-◌, ◌<◌, ◌≤◌, ◌≡◌, ◌≢◌, ◌⊎◌, inl, inr, refl, ap, ◌∙◌, arith, Bool, true,
  false, ◌&&◌, some, ◌==◌, ltb, leb, if◌then◌else◌, add32, slt32, minus_one, i32_sign, slt32-of_lt,
  slt32-of_le, dec_lt, Bool-cases, sym,
}
use mathlib.Core.Path.{subst}
use operating_systems.Files.{File, fd_inode}
use operating_systems.Files.Transfer.{max_chunk, chunk, next_off, Calls, write_chunks, filewrite}

chunk-bounds :
    (n i : ℕ)
    → n < i32_sign
    → i < n
    → (chunk n i ≤ max_chunk) × (0 < chunk n i) × (i + chunk n i ≤ n)
unfolding chunk
chunk-bounds n i small more = ground arith

next_off-add : (off r : ℕ) → off + r < i32_sign → next_off off r ≡ off + r
unfolding next_off
next_off-add off r small = elim (dec_lt 0 r) [
  | yes pos ↦ rw (slt32-of_lt 0 r (omega arith) pos) (omega arith)
  | no none_moved ↦ rw (slt32-of_le r 0 (omega arith) (omega arith)) (omega arith)
]

next_off-minus_one : (off : ℕ) → next_off off minus_one ≡ off
unfolding next_off
next_off-minus_one off = refl

-- The byte `q` of the inode `j` is one of the `n` from `off` on of the inode `ip`.
abbrev pub inside : ℕ → ℕ → ℕ → ℕ → ℕ → Bool
inside ip off n j q = j == ip && (leb off q && ltb q (off + n))

-- `contents` are the bytes of the inodes, and `source` those of the caller's buffer.
module _ {S : Type 0} (C : Calls S) (contents : S → ℕ → ℕ → ℕ) (source : ℕ → ℕ) where
  open C use {writei}

  -- The first `m` bytes from `off` on are those of the buffer from `at` on, and no byte but the `n`
  -- from `off` on has changed.
  pub record Wrote (ip at off n m : ℕ) (s t : S) : Type 0 where
    pub bytes : (q : ℕ) → off ≤ q → q < off + m → contents t ip q ≡ source (at + (q - off))
    pub outside : (j q : ℕ) → inside ip off n j q ≡ false → contents t j q ≡ contents s j q

  -- What `writei` of fs.c does: it returns -1, or the number of the bytes that it has written, which
  -- may be less than it was asked for, and changes no byte that it was not asked for.
  abbrev pub WriteiLaw : Type 0
  WriteiLaw =
      (ip at off k : ℕ) (s : S)
      → k ≤ max_chunk
      → ((writei ip at off k s).0 ≡ minus_one) × Wrote ip at off k 0 s (writei ip at off k s).1
        ⊎ ((writei ip at off k s).0 ≤ k)
          × Wrote ip at off k (writei ip at off k s).0 s (writei ip at off k s).1

  -- A call of `writei` for some of the `n` bytes that writes fewer than it is asked for.
  abbrev pub FallsShort : ℕ → ℕ → ℕ → Type 0
  FallsShort ip n start =
      (at : ℕ) × (k : ℕ) × (st : S) × (0 < k)
      × (k ≤ max_chunk)
      × (at + k ≤ n)
      × ((writei ip at (start + at) k st).0 ≢ k)

  -- How the loop ends from `i` and `off` on, where the file stood at `start` for `i = 0`.
  record Written (ip n start i off : ℕ) (s : S) (r : ℕ × ℕ × S) : Type 0 where
    m : ℕ
    most : m ≤ n - i
    complete : (r.0 == n) ≡ (m == n - i)
    moved : r.1 ≡ off + m
    wrote : Wrote ip i off (n - i) m s r.2
    ends : (m ≡ n - i) ⊎ FallsShort ip n start

  Wrote-nothing : (ip at off n : ℕ) (s : S) → Wrote ip at off n 0 s s
  Wrote-nothing ip at off n s = record {
    bytes = λ q l h. absurd (omega (arith, l, h));
    outside = λ j q h. refl;
  }

  Wrote-wider :
      (ip at off k n m : ℕ) (s t : S) → k ≤ n → Wrote ip at off k m s t → Wrote ip at off n m s t
  Wrote-wider ip at off k n m s t le w = record {
    bytes = w.bytes;
    outside = λ j q h. w.outside j q (ground arith);
  }

  Wrote-append :
      (ip at off k n m : ℕ) (s s1 t : S)
      → Wrote ip at off k k s s1
      → Wrote ip (at + k) (off + k) n m s1 t
      → Wrote ip at off (k + n) (k + m) s t
  Wrote-append ip at off k n m s s1 t w x = record {
    bytes = λ q l h. elim (dec_lt q (off + k)) [
      | yes first ↦
          let before : inside ip (off + k) n ip q ≡ false = ground (arith, first) in
          x.outside ip q before ∙ w.bytes q l first
      | no later ↦
          let place : at + k + (q - (off + k)) ≡ at + (q - off) = omega arith in
          x.bytes q (omega arith) (omega arith) ∙ ap source place
    ];
    outside = λ j q h. x.outside j q (ground arith) ∙ w.outside j q (ground arith);
  }

  module _ (law : WriteiLaw) (ip n start : ℕ) (small : n < i32_sign) where
    write_chunks-Written :
        (fuel i off : ℕ) (s : S)
        → i ≤ n
        → n ≤ i + fuel
        → off ≡ start + i
        → start + n < i32_sign
        → Written ip n start i off s (write_chunks C fuel ip n i off s)
    unfolding write_chunks
    write_chunks-Written zero i off s le enough at fits = record {
      m = 0;
      most = omega arith;
      complete = ground arith;
      moved = omega arith;
      wrote = Wrote-nothing ip i off (n - i) s;
      ends = inl (omega arith);
    }
    write_chunks-Written (suc fuel) i off s le enough at fits = elim (dec_lt i n) [
      | no over ↦
          let test : slt32 i n ≡ false = slt32-of_le n i (omega arith) (omega arith) in
          rw test (record {
            m = 0;
            most = omega arith;
            complete = ground arith;
            moved = omega arith;
            wrote = Wrote-nothing ip i off (n - i) s;
            ends = inl (omega arith);
          })
      | yes more ↦
          let (low, high, fit) = chunk-bounds n i small more in
          let c = chunk n i in
          let r = (writei ip i off c s).0 in
          let test : slt32 i n ≡ true = slt32-of_lt i n small more in
          let call : ((writei ip i off c s).0 ≢ c) → FallsShort ip n start =
            λ ne. (i, c, s, high, low, fit, λ e. ne (ap (λ o. (writei ip i o c s).0) at ∙ e)) in
          elim (law ip i off c s low) [
            | inl (fails, w) ↦
                let other : (r == c) ≡ false = ground (arith, fails, low) in
                rw (test, other)
                  (record {
                    m = 0;
                    most = omega arith;
                    complete = ground (arith, more);
                    moved = ap (next_off off) fails ∙ next_off-minus_one off ∙ omega arith;
                    wrote = Wrote-wider ip i off c (n - i) 0 s _ (omega (arith, fit)) w;
                    ends = inr (call (λ e. ground (arith, fails, e, low)));
                  })
            | inr (part, w) ↦ elim (Bool-cases (r == c)) [
              | inr other ↦
                  rw (test, other)
                    (record {
                      m = r;
                      most = omega (arith, part, fit);
                      complete = ground (arith, more, other, part, fit);
                      moved = next_off-add off r (omega (arith, part, fit, at));
                      wrote = Wrote-wider ip i off c (n - i) r s _ (omega (arith, fit)) w;
                      ends = inr (call (λ e. ground (arith, other, e)));
                    })
              | inl all ↦
                  let full : r ≡ c = ground (arith, all) in
                  let next : add32 i r ≡ i + c = omega (arith, full, fit) in
                  let place : next_off off r ≡ off + c =
                    next_off-add off r (omega (arith, full, fit, at)) ∙ ap (λ k. off + k) full in
                  let s1 = (writei ip i off c s).1 in
                  let ih =
                    write_chunks-Written fuel (i + c) (off + c) s1 fit (omega (arith, high))
                      (omega (arith, at)) fits in
                  let rest : n - i ≡ c + (n - (i + c)) = omega (arith, fit) in
                  let first : Wrote ip i off c c s s1 =
                    subst (λ k. Wrote ip i off c k s s1) full w in
                  let result = write_chunks C fuel ip n (i + c) (off + c) s1 in
                  let joined : Written ip n start i off s result = record {
                    m = c + ih.m;
                    most = omega (arith, ih.most, fit);
                    complete = ih.complete ∙ ground (arith, rest);
                    moved = ih.moved ∙ omega arith;
                    wrote =
                        subst (λ k. Wrote ip i off k (c + ih.m) s result.2) (sym rest)
                          (Wrote-append ip i off c (n - (i + c)) ih.m s s1 result.2 first ih.wrote);
                    ends = elim ih.ends [
                      | inl e ↦ inl (ap (λ k. c + k) e ∙ sym rest)
                      | inr short ↦ inr short
                    ];
                  } in
                  rw (test, all, next, place) joined
            ]
          ]
    ]

  -- On a writable file of an inode, with a `writei` that keeps to its law, `filewrite` of `n` bytes at
  -- an offset that stays below 2 ^ 31 writes a first part of them, from the file's offset on and in
  -- their order, and moves the offset behind it; of the rest of the range nothing is said, and no
  -- other byte of an inode changes. It returns `n` when that part is all of them, and else -1, and
  -- then some call of `writei` for at most `max_chunk` of the bytes, at their place in the file,
  -- has not written as many as it was asked for.
  pub filewrite-Wrote :
      (f : File) (n : ℕ) (s : S)
      → WriteiLaw
      → f.kind ≡ fd_inode
      → f.writable ≡ true
      → f.off + n < i32_sign
      → (m : ℕ) × (s1 : S) × (m ≤ n)
        × (filewrite C f n s
            ≡ some (if m == n then n else minus_one, record f { off = f.off + m }, s1))
        × Wrote f.ip 0 f.off n m s s1
        × ((m ≡ n) ⊎ FallsShort f.ip n f.off)
  unfolding filewrite
  filewrite-Wrote f n s law inode open_file fits =
      let w =
        write_chunks-Written law f.ip n f.off (omega arith) n 0 f.off s (omega arith) (omega arith)
          (omega arith) fits in
      let result = write_chunks C n f.ip n 0 f.off s in
      let whole : n - 0 ≡ n = omega arith in
      let complete : (result.0 == n) ≡ (w.m == n) = w.complete ∙ ap (λ k. w.m == k) whole in
      let bound : w.m ≤ n = omega (arith, w.most) in
      let loops : filewrite C f n s
          ≡ some (if result.0 == n then n else minus_one, record f { off = result.1 }, result.2) =
        ground (arith, inode, open_file) in
      let same : some
            (if result.0 == n then n else minus_one, record f { off = result.1 }, result.2)
          ≡ some (if w.m == n then n else minus_one, record f { off = f.off + w.m }, result.2) =
        rw (complete, w.moved) refl in
      (
        w.m,
        result.2,
        bound,
        loops ∙ same,
        subst (λ k. Wrote f.ip 0 f.off k w.m s result.2) whole w.wrote,
        elim w.ends [ inl e ↦ inl (e ∙ whole) | inr short ↦ inr short ],
      )
