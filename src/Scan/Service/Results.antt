-- ===== src/Scan/Service/Results.antt =====
-- What the results of a host are: the deciding attempt of each port, in the order of the ports.
use pyscan.Prelude.{
  ℕ, suc, zero, ◌+◌, ◌<◌, ◌≤◌, ◌≡◌, refl, ap, ◌∙◌, ◌⊎◌, inl, inr, true, false, arith, ◌==◌, ==_iff,
  Bool-cases, ℤ, pos, negsuc,
}
use pyscan.Scan.Service.{retry, bounded, is_inconclusive}
use pyscan.Scan.Models.{PortResult}

module _ {T : Type 0} where
  -- The result is that of attempt `last`: every attempt from `first` to before it was inconclusive,
  -- and it decides or is the last one allowed.
  pub record IsDecided (answers : ℕ → PortResult T) (first retries : ℕ) (result : PortResult T)
      : Type 0 where
    pub last : ℕ
    pub from_first : first ≤ last
    pub within : last ≤ first + retries
    pub taken : result ≡ answers last
    pub silent : (i : ℕ) → first ≤ i → i < last → is_inconclusive (answers i).state ≡ true
    pub decided : (is_inconclusive result.state ≡ false) ⊎ (last ≡ first + retries)

  retry-IsDecided :
      (answers : ℕ → PortResult T) (retries first : ℕ)
      → IsDecided answers first retries (retry answers retries first)
  unfolding retry
  retry-IsDecided answers zero first = record {
    last = first;
    from_first = omega arith;
    within = omega arith;
    taken = refl;
    silent = λ i a b. absurd (omega (arith, a, b));
    decided = inr (omega arith);
  }
  retry-IsDecided answers (suc retries) first =
      elim (Bool-cases (is_inconclusive (answers first).state)) [
        | inl again ↦ rw again (
            let later = retry-IsDecided answers retries (first + 1) in
            record {
              last = later.last;
              from_first = omega (arith, later.from_first);
              within = omega (arith, later.within);
              taken = later.taken;
              silent = λ i a b. elim (Bool-cases (i == first)) [
                | inl same ↦
                    ap (λ n. is_inconclusive (answers n).state) ((==_iff i first).0 same) ∙ again
                | inr other ↦ later.silent i (ground arith) b
              ];
              decided = elim later.decided [ inl c ↦ inl c | inr e ↦ inr (omega (arith, e)) ];
            })
        | inr done ↦ rw done (record {
          last = first;
          from_first = omega arith;
          within = omega arith;
          taken = refl;
          silent = λ i a b. absurd (omega (arith, a, b));
          decided = inl done;
        })
      ]

  -- Whatever the network answers, the result of a port is the first conclusive answer to it, or
  -- the last of the answers where the retries are used up; no more probes are sent than one and the
  -- retries, and a negative number of retries counts as none.
  pub bounded-IsDecided :
      (answers : ℕ → PortResult T) (retries : ℤ)
      → IsDecided answers 0 (elim retries [ pos n ↦ n | negsuc n ↦ 0 ]) (bounded answers retries)
  unfolding bounded
  bounded-IsDecided answers (pos n) = retry-IsDecided answers n 0
  bounded-IsDecided answers (negsuc n) = retry-IsDecided answers 0 0
