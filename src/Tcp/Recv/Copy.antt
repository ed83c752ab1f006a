-- ===== src/Tcp/Recv/Copy.antt =====
-- What the copies of the receive path leave in a block.
use swnet_win.Base.{
  ℕ, ◌+◌, ◌≤◌, ◌≡◌, ◌∙◌, ap, some, List, ◌++◌, length, take, drop, length-append, length-drop,
  length-take, take-append_le, take-append_ge, take_all, drop-append_ge, arith,
}
use swnet_win.Tcp.Recv.{write_bytes}

-- A block after `src` was copied to `o`.
abbrev pub put : List ℕ → ℕ → List ℕ → List ℕ
put b o src = take o b ++ (src ++ drop (o + length src) b)

-- Taking across the seam of two pieces.
pub take-across : (h s : List ℕ) (n : ℕ) → take (length h + n) (h ++ s) ≡ h ++ take n s
take-across h s n =
    take-append_ge (length h + n) h s (omega arith) ∙ ap (λ k. h ++ take k s) (omega arith)

pub drop-across : (h s : List ℕ) (n : ℕ) → drop (length h + n) (h ++ s) ≡ drop n s
drop-across h s n =
    drop-append_ge (length h + n) h s (omega arith) ∙ ap (λ k. drop k s) (omega arith)

module _ (b : List ℕ) (o : ℕ) (src : List ℕ) (inside : o + length src ≤ length b) where
  pub length-put : length (put b o src) ≡ length b
  length-put = omega (
    arith,
    length-append (take o b) (src ++ drop (o + length src) b),
    length-append src (drop (o + length src) b),
    length-drop (o + length src) b,
    length-take o b,
  )

  pub take-put : take (o + length src) (put b o src) ≡ take o b ++ src
  take-put =
      let e : o + length src ≡ length (take o b) + length src = omega (arith, length-take o b) in
      ap (λ k. take k (put b o src)) e
      ∙ (take-across (take o b) (src ++ drop (o + length src) b) (length src)
          ∙ ap (λ t. take o b ++ t)
              (take-append_le (length src) src _ (omega arith)
                ∙ take_all (length src) src (omega arith)))

  pub write_bytes-put : write_bytes b o src ≡ some (put b o src)
  write_bytes-put = ground arith
