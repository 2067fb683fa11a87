-- ===== src/Middleware/Limits.antt =====
-- How many requests of a session pass in a second (src/middleware.rs).
use oasis_chain.Prelude.{
  ℕ, zero, suc, ◌-◌, ◌/◌, ◌^◌, ◌≤◌, ◌<◌, ◌≡◌, refl, ap, sym, ◌∙◌, Option, some, List, [], ◌∷◌, ◌++◌,
  map, take, drop, lookup, insert, lookup-insert_self, nat_eq, length, lt→ltb, le→ltb, lt→leb,
  arith,
}
use oasis_chain.Informant.{
  RateCalculator, RpcStats, rate_seconds, elapsed, sample, saturating_suc, tick, count_request,
}
use oasis_chain.Informant.Windows.{tick-count, length-tick}
use oasis_chain.Middleware.{
  Request, Response, rate_limited, generate_error_response, ws, ws_on_request,
}
use native.Mathlib.Decide.{dec_lt}

saturating_suc-small : (c : ℕ) → c < 2 ^ 16 - 1 → saturating_suc c ≡ suc c
saturating_suc-small c h = rw (lt→leb h) refl

saturating_suc-over : (c max : ℕ) → max < 2 ^ 16 - 1 → max ≤ c → max < saturating_suc c
saturating_suc-over c max small h = ground arith

count_request-known :
    (first second third id : ℕ) (stats : RpcStats) (calc : RateCalculator)
    → lookup id stats ≡ some calc
    → count_request first second third id stats
      ≡ ((tick first second third calc).0, insert id (tick first second third calc).1 stats)
unfolding count_request tick insert
count_request-known first second third id stats calc found = rw (found, count_request) refl

module _ (max now session : ℕ) (process : Request → Option Response) where
  -- The answers to a session's requests, all at the same time.
  unfoldable pub serve : List Request → RpcStats → List (Option Response)
  serve [] stats = []
  serve (request ∷ requests) stats =
      let (answer, stats') = ws_on_request max now now now process request (ws session) stats in
      answer ∷ serve requests stats'

  -- `k` requests pass, and the others are refused.
  abbrev pub split_at : ℕ → List Request → List (Option Response)
  split_at k requests =
      map process (take k requests) ++ map (generate_error_response rate_limited) (drop k requests)

  split_at_nil : (k : ℕ) → [] ≡ split_at k []
  split_at_nil zero = refl
  split_at_nil (suc k) = refl

  split_at-zero :
      (k : ℕ) (request : Request) (requests : List Request)
      → k ≡ 0
      → split_at k (request ∷ requests)
        ≡ generate_error_response rate_limited request ∷ split_at 0 requests
  split_at-zero k request requests e = rw e refl

  split_at-suc :
      (k j : ℕ) (request : Request) (requests : List Request)
      → k ≡ suc j
      → split_at k (request ∷ requests) ≡ process request ∷ split_at j requests
  split_at-suc k j request requests e = rw e refl

  -- Of the requests that a session makes at one time, in the first ten seconds of its era, with ten
  -- counts and a limit below 2 ^ 16 - 1: those up to the limit for the second, less the ones
  -- counted before, are handed on in order, and all later ones are answered with the rate error.
  pub serve-limits :
      (requests : List Request) (stats : RpcStats) (calc : RateCalculator)
      → lookup session stats ≡ some calc
      → elapsed now calc < rate_seconds
      → length calc.samples ≡ rate_seconds
      → max < 2 ^ 16 - 1
      → serve requests stats ≡ split_at (max - sample calc.samples (elapsed now calc)) requests
  unfolding serve ws_on_request
  serve-limits [] stats calc found early len small = split_at_nil _
  serve-limits (request ∷ requests) stats calc found early len small =
      let c = sample calc.samples (elapsed now calc) in
      let calc' = (tick now now now calc).1 in
      let known = count_request-known now now now session stats calc found in
      let (count_is, era_is, kept, _, _) = tick-count calc now now now early early len in
      let same : elapsed now calc' ≡ elapsed now calc =
        ap (λ (era : ℕ). (now - era) / 10 ^ 9) era_is in
      let c' : sample calc'.samples (elapsed now calc') ≡ saturating_suc c =
        ap (sample calc'.samples) same ∙ kept ∙ count_is in
      let rest =
        serve-limits requests (insert session calc' stats) calc'
          (lookup-insert_self session calc' stats) (rw same early)
          (length-tick calc now now now early len) small in
      elim (dec_lt c max) [
        | yes below ↦
            let counted : saturating_suc c ≡ suc c = saturating_suc-small c (omega arith) in
            let fits : (tick now now now calc).0 ≡ suc c = count_is ∙ counted in
            let next : max - c ≡ suc (max - suc c) = omega arith in
            rw (known, fits, le→ltb max (suc c) (omega arith))
              (ap (λ (answers : List (Option Response)). process request ∷ answers)
                  (rest ∙ ap (λ (k : ℕ). split_at (max - k) requests) (c' ∙ counted))
                ∙ sym (split_at-suc (max - c) (max - suc c) request requests next))
        | no reached ↦
            let over : max < saturating_suc c = saturating_suc-over c max small (omega arith) in
            let full : max - c ≡ 0 = omega arith in
            let still : max - saturating_suc c ≡ 0 = omega arith in
            rw (known, count_is, lt→ltb max (saturating_suc c) over)
              (ap
                  (λ (answers : List (Option Response)).
                    generate_error_response rate_limited request ∷ answers)
                  (rest
                    ∙ ap (λ (k : ℕ). split_at (max - k) requests) c'
                    ∙ ap (λ (k : ℕ). split_at k requests) still)
                ∙ sym (split_at-zero (max - c) request requests full))
      ]
