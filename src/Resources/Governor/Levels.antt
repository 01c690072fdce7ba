-- ===== src/Resources/Governor/Levels.antt =====
-- infomesh/resources/governor.py: how the level and the throttle follow the load.
use infomesh.Prelude.{ℕ, ◌≤◌, ◌≡◌, refl, ◌⊎◌, inl, inr, Bool, true, false, arith, leb}
use infomesh.Resources.Governor.{
  cpu_high_pct, memory_high_pct, full_speed, DegradeLevel, normal, warning, overloaded, severe,
  defensive, rank, ResourceGovernor, Sample, or_zero, ratio_reaches, above, level_from, level_of,
  gradual, factor_of, check_and_adjust, should_pause_crawl, is_read_only, effective_max_concurrent,
}
use native.Mathlib.Nat.{mul-le-mul_left}

-- Every reading of the second sample is at least that of the first.
abbrev pub NoLess : Sample → Sample → Type 0
NoLess s t =
    (or_zero s.cpu ≤ or_zero t.cpu)
    × (or_zero s.memory ≤ or_zero t.memory)
    × (or_zero s.process_memory ≤ or_zero t.process_memory)

ratio_reaches_monotone :
    (percent rss rss' limit : ℕ)
    → rss ≤ rss'
    → ratio_reaches percent rss limit ≡ true
    → ratio_reaches percent rss' limit ≡ true
unfolding ratio_reaches
ratio_reaches_monotone percent rss rss' limit l h = ground arith

above_monotone :
    (c m p cpu cpu' mem mem' rss rss' limit : ℕ)
    → cpu ≤ cpu'
    → mem ≤ mem'
    → rss ≤ rss'
    → above c m p cpu mem rss limit ≡ true
    → above c m p cpu' mem' rss' limit ≡ true
unfolding above
above_monotone c m p cpu cpu' mem mem' rss rss' limit l l' l'' h =
    ground (arith, ratio_reaches_monotone p rss rss' limit l'')

level_from_monotone :
    (a b c d a' b' c' d' : Bool)
    → (a ≡ true → a' ≡ true)
    → (b ≡ true → b' ≡ true)
    → (c ≡ true → c' ≡ true)
    → (d ≡ true → d' ≡ true)
    → rank (level_from a b c d) ≤ rank (level_from a' b' c' d')
unfolding rank level_from
level_from_monotone a b c d a' b' c' d' ha hb hc hd = ground arith

gradual_antitone : (cpu cpu' : ℕ) → cpu ≤ cpu' → gradual cpu' ≤ gradual cpu
unfolding gradual
gradual_antitone cpu cpu' l = ground arith

gradual_least : (cpu : ℕ) → cpu ≤ 600 → 2900 ≤ gradual cpu
unfolding gradual
gradual_least cpu l = ground arith

gradual_most : (cpu : ℕ) → gradual cpu ≤ full_speed
unfolding gradual
gradual_most cpu = ground arith

factor_of_antitone :
    (l l' : DegradeLevel) (cpu cpu' : ℕ)
    → rank l ≤ rank l'
    → cpu ≤ cpu'
    → (l ≡ normal → cpu ≤ 600)
    → factor_of l' cpu' ≤ factor_of l cpu
unfolding rank factor_of
factor_of_antitone normal normal cpu cpu' r c low = gradual_antitone cpu cpu' c
factor_of_antitone normal warning cpu cpu' r c low = omega (arith, gradual_least cpu (low refl))
factor_of_antitone normal overloaded cpu cpu' r c low = omega (arith, gradual_least cpu (low refl))
factor_of_antitone normal severe cpu cpu' r c low = omega arith
factor_of_antitone normal defensive cpu cpu' r c low = omega arith
factor_of_antitone warning l' cpu cpu' r c low = ground arith
factor_of_antitone overloaded l' cpu cpu' r c low = ground arith
factor_of_antitone severe l' cpu cpu' r c low = ground arith
factor_of_antitone defensive l' cpu cpu' r c low = ground arith

level_of_normal : (cpu mem rss limit : ℕ) → level_of cpu mem rss limit ≡ normal → cpu ≤ 600
unfolding level_of level_from above
level_of_normal cpu mem rss limit h = ground arith

level_of_monotone :
    (cpu cpu' mem mem' rss rss' limit : ℕ)
    → cpu ≤ cpu'
    → mem ≤ mem'
    → rss ≤ rss'
    → rank (level_of cpu mem rss limit) ≤ rank (level_of cpu' mem' rss' limit)
unfolding level_of
level_of_monotone cpu cpu' mem mem' rss rss' limit c m r =
    let up = λ (a b p : ℕ). above_monotone a b p cpu cpu' mem mem' rss rss' limit c m r in
    level_from_monotone _ _ _ _ _ _ _ _ (up 950 950 120) (up 900 900 100)
      (up cpu_high_pct memory_high_pct 90) (up 600 700 75)

-- With every reading at least as high, a check sets a level at least as high, and a throttle factor
-- and a number of connections at most as high.
pub check_and_adjust_monotone :
    (g : ResourceGovernor) (s t : Sample) (now later : ℕ)
    → NoLess s t
    → (rank (check_and_adjust g s now).state.degrade_level
        ≤ rank (check_and_adjust g t later).state.degrade_level)
      × ((check_and_adjust g t later).state.throttle_factor
          ≤ (check_and_adjust g s now).state.throttle_factor)
      × (effective_max_concurrent (check_and_adjust g t later)
          ≤ effective_max_concurrent (check_and_adjust g s now))
unfolding check_and_adjust effective_max_concurrent
check_and_adjust_monotone g s t now later (c, m, r) =
    let limit = g.profile.memory_limit_mb in
    let level = level_of (or_zero s.cpu) (or_zero s.memory) (or_zero s.process_memory) limit in
    let level' = level_of (or_zero t.cpu) (or_zero t.memory) (or_zero t.process_memory) limit in
    let up : rank level ≤ rank level' = level_of_monotone _ _ _ _ _ _ limit c m r in
    let down : factor_of level' (or_zero t.cpu) ≤ factor_of level (or_zero s.cpu) =
      factor_of_antitone level level' _ _ up c (level_of_normal _ _ _ limit) in
    (up, down, omega (arith, mul-le-mul_left g.profile.max_concurrent_crawl down))

-- After a check the factor is 0 in read-only mode, a quarter or a half at the two levels below, where
-- crawling is paused, and otherwise between 0.58 and 1: the floor of 0.3 is never reached. One
-- connection at least is allowed always.
pub throttle_steps :
    (g : ResourceGovernor) (s : Sample) (now : ℕ)
    → (((is_read_only (check_and_adjust g s now) ≡ true)
          × ((check_and_adjust g s now).state.throttle_factor ≡ 0))
        ⊎ (((should_pause_crawl (check_and_adjust g s now) ≡ true)
              × (is_read_only (check_and_adjust g s now) ≡ false)
              × (((check_and_adjust g s now).state.throttle_factor ≡ 1250)
                  ⊎ ((check_and_adjust g s now).state.throttle_factor ≡ 2500)))
            ⊎ ((should_pause_crawl (check_and_adjust g s now) ≡ false)
                × (2900 ≤ (check_and_adjust g s now).state.throttle_factor)
                × ((check_and_adjust g s now).state.throttle_factor ≤ full_speed))))
      × (1 ≤ effective_max_concurrent (check_and_adjust g s now))
unfolding check_and_adjust effective_max_concurrent is_read_only should_pause_crawl rank factor_of
throttle_steps g s now = (
  steps
      (level_of (or_zero s.cpu) (or_zero s.memory) (or_zero s.process_memory)
        g.profile.memory_limit_mb)
      (level_of_normal (or_zero s.cpu) (or_zero s.memory) (or_zero s.process_memory)
        g.profile.memory_limit_mb),
  omega arith,
)
  where
    steps :
        (l : DegradeLevel)
        → (l ≡ normal → or_zero s.cpu ≤ 600)
        → ((leb 3 (rank l) ≡ true) × (factor_of l (or_zero s.cpu) ≡ 0))
          ⊎ (((leb 1 (rank l) ≡ true)
                × (leb 3 (rank l) ≡ false)
                × ((factor_of l (or_zero s.cpu) ≡ 1250) ⊎ (factor_of l (or_zero s.cpu) ≡ 2500)))
              ⊎ ((leb 1 (rank l) ≡ false)
                  × (2900 ≤ factor_of l (or_zero s.cpu))
                  × (factor_of l (or_zero s.cpu) ≤ full_speed)))
    steps normal low =
        inr (inr (refl, gradual_least (or_zero s.cpu) (low refl), gradual_most (or_zero s.cpu)))
    steps warning low = inr (inl (refl, refl, inr refl))
    steps overloaded low = inr (inl (refl, refl, inl refl))
    steps severe low = inl (refl, refl)
    steps defensive low = inl (refl, refl)
