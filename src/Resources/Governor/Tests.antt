-- ===== src/Resources/Governor/Tests.antt =====
-- infomesh/resources/governor.py at two loads.
use infomesh.Prelude.{◌≤◌, none, some, arith}
use infomesh.Resources.Governor.{
  ResourceGovernor, Sample, new_governor, rank, check_and_adjust, effective_max_concurrent,
}
use infomesh.Resources.Governor.Levels.{check_and_adjust_monotone}

abbrev governor : ResourceGovernor
governor = record {
  profile = record { max_concurrent_crawl = 8; memory_limit_mb = 512 };
  state = (new_governor (record { max_concurrent_crawl = 8; memory_limit_mb = 512 })).state;
}

-- 45 % and 72.5 % of the CPU, the second without a reading of the memory of the process
abbrev calm : Sample
calm = record { cpu = some 450; memory = some 400; process_memory = none }

abbrev busy : Sample
busy = record { cpu = some 725; memory = some 400; process_memory = none }

check_and_adjust_monotone_example :
    (rank (check_and_adjust governor calm 5).state.degrade_level
      ≤ rank (check_and_adjust governor busy 10).state.degrade_level)
    × ((check_and_adjust governor busy 10).state.throttle_factor
        ≤ (check_and_adjust governor calm 5).state.throttle_factor)
    × (effective_max_concurrent (check_and_adjust governor busy 10)
        ≤ effective_max_concurrent (check_and_adjust governor calm 5))
check_and_adjust_monotone_example =
    check_and_adjust_monotone governor calm busy 5 10 (omega arith, omega arith, omega arith)
