-- ===== src/Resources/Governor.antt =====
-- infomesh/resources/governor.py: the degradation levels and the throttle factor. A percentage is a
-- natural number of tenths, as psutil rounds it, the memory of the process a number of bytes, and the
-- throttle factor a number of five-thousandths, in which the code's formula is exact.
pub mod Levels
mod Tests
use infomesh.Prelude.{
  ℕ, ◌+◌, ◌-◌, ◌*◌, ◌/◌, max, Bool, true, false, ◌&&◌, ◌||◌, Option, none, some, ltb, leb,
  if◌then◌else◌, Text,
}

-- tenths of a percent
abbrev pub cpu_high_pct : ℕ
cpu_high_pct = 800

abbrev pub cpu_low_pct : ℕ
cpu_low_pct = 300

abbrev pub memory_high_pct : ℕ
memory_high_pct = 850

abbrev pub mebibyte : ℕ
mebibyte = 1024 * 1024

-- the factor 1.0
abbrev pub full_speed : ℕ
full_speed = 5000

pub data DegradeLevel : Type 0 where
  normal warning overloaded severe defensive : DegradeLevel

-- the value of the IntEnum
pub rank : DegradeLevel → ℕ
rank normal = 0
rank warning = 1
rank overloaded = 2
rank severe = 3
rank defensive = 4

-- The fields of the profile that the governor reads for its checks.
pub record ResourceProfile : Type 0 where
  pub max_concurrent_crawl : ℕ
  pub memory_limit_mb : ℕ

pub record GovernorState : Type 0 where
  pub degrade_level : DegradeLevel
  pub cpu_percent : ℕ
  pub memory_percent : ℕ
  pub process_memory : ℕ
  pub process_memory_limit_mb : ℕ
  pub throttle_factor : ℕ
  pub last_check : ℕ
  pub checks_performed : ℕ

pub record ResourceGovernor : Type 0 where
  pub profile : ResourceProfile
  pub state : GovernorState

pub new_governor : ResourceProfile → ResourceGovernor
new_governor profile = record {
  profile = profile;
  state = record {
    degrade_level = normal;
    cpu_percent = 0;
    memory_percent = 0;
    process_memory = 0;
    process_memory_limit_mb = 0;
    throttle_factor = full_speed;
    last_check = 0;
    checks_performed = 0;
  };
}

-- What psutil answers: nothing where it is missing or raises.
pub record Sample : Type 0 where
  pub cpu : Option ℕ
  pub memory : Option ℕ
  pub process_memory : Option ℕ

abbrev pub or_zero : Option ℕ → ℕ
or_zero none = 0
or_zero (some n) = n

-- `process_ratio >= percent / 100`, where the ratio is 0 without a limit
pub ratio_reaches : ℕ → ℕ → ℕ → Bool
ratio_reaches percent rss limit = ltb 0 limit && leb (percent * (limit * mebibyte)) (100 * rss)

-- one condition of the chain: a limit on the CPU, on the memory, and on the memory of the process
pub above : ℕ → ℕ → ℕ → ℕ → ℕ → ℕ → ℕ → Bool
above cpu_limit mem_limit percent cpu mem rss limit =
    ltb cpu_limit cpu || (ltb mem_limit mem || ratio_reaches percent rss limit)

-- the chain of conditions
pub level_from : Bool → Bool → Bool → Bool → DegradeLevel
level_from at_defensive at_severe at_overloaded at_warning =
    if at_defensive
    then defensive
    else if at_severe
    then severe
    else if at_overloaded
    then overloaded
    else if at_warning
    then warning
    else normal

pub level_of : ℕ → ℕ → ℕ → ℕ → DegradeLevel
level_of cpu mem rss limit =
    level_from (above 950 950 120 cpu mem rss limit) (above 900 900 100 cpu mem rss limit)
      (above cpu_high_pct memory_high_pct 90 cpu mem rss limit) (above 600 700 75 cpu mem rss limit)

-- `max(0.3, 1.0 - (cpu - 30) / 50 * 0.7)` above 30 %
pub gradual : ℕ → ℕ
gradual cpu =
    if ltb cpu_low_pct cpu then max 1500 (full_speed - 7 * (cpu - cpu_low_pct)) else full_speed

pub factor_of : DegradeLevel → ℕ → ℕ
factor_of normal cpu = gradual cpu
factor_of warning cpu = 2500
factor_of overloaded cpu = 1250
factor_of severe cpu = 0
factor_of defensive cpu = 0

pub check_and_adjust : ResourceGovernor → Sample → ℕ → ResourceGovernor
check_and_adjust g s now =
    let cpu = or_zero s.cpu in
    let mem = or_zero s.memory in
    let rss = or_zero s.process_memory in
    let level = level_of cpu mem rss g.profile.memory_limit_mb in
    record g {
      state = record {
        degrade_level = level;
        cpu_percent = cpu;
        memory_percent = mem;
        process_memory = rss;
        process_memory_limit_mb = g.profile.memory_limit_mb;
        throttle_factor = factor_of level cpu;
        last_check = now;
        checks_performed = g.state.checks_performed + 1;
      };
    }

pub should_throttle_crawl : ResourceGovernor → Bool
should_throttle_crawl g = ltb g.state.throttle_factor full_speed

pub should_pause_crawl : ResourceGovernor → Bool
should_pause_crawl g = leb 1 (rank g.state.degrade_level)

pub should_disable_llm : ResourceGovernor → Bool
should_disable_llm g = leb 1 (rank g.state.degrade_level)

pub should_disable_remote_search : ResourceGovernor → Bool
should_disable_remote_search g = leb 2 (rank g.state.degrade_level)

pub is_read_only : ResourceGovernor → Bool
is_read_only g = leb 3 (rank g.state.degrade_level)

-- `max(1, int(base * factor))`
pub effective_max_concurrent : ResourceGovernor → ℕ
effective_max_concurrent g =
    max 1 (g.profile.max_concurrent_crawl * g.state.throttle_factor / full_speed)
