-- ===== src/Bench.antt =====
-- The client of the sets, include/BenchUtils.h: its settings and their parsing, and what `runBench` hands
-- to its threads and collects from them. An `int` is its 32-bit pattern; `getopt` and `atoi` are the C
-- library's: the switches that `getopt` finds are an argument, `atoi` a parameter.
mod Shares
mod Ratios
mod Thread
mod Fill
mod Work
mod Parse
mod Tests
use Prim.Native.String.{String}
use efficient_lock_free_dura.Common.{
  ℕ, zero, suc, ◌+◌, ◌%◌, ◌^◌, ◌≡◌, refl, Bool, true, false, List, [], ◌∷◌, ◌++◌, All,
}

pub record Settings : Type 0 where
  pub alg_name : String
  pub num_threads : ℕ
  pub duration : ℕ
  pub ro_ratio : ℕ
  pub key_range : ℕ
  pub iteration : ℕ
  pub sanity_mode : Bool
  pub test_num : ℕ

abbrev pub defaults : Settings
defaults = record {
  alg_name = "BucketList";
  num_threads = 1;
  duration = 5;
  ro_ratio = 90;
  key_range = 1024;
  iteration = 1;
  sanity_mode = false;
  test_num = 1;
}

-- A result of `getopt`, with its `optarg`; `switch_other` is one without a case of its own.
pub data Switch : Type 0 where
  switch_a : (optarg : String) → Switch
  switch_p : (optarg : String) → Switch
  switch_d : (optarg : String) → Switch
  switch_r : (optarg : String) → Switch
  switch_m : (optarg : String) → Switch
  switch_i : (optarg : String) → Switch
  switch_t : (optarg : String) → Switch
  switch_h : Switch
  switch_other : Switch

module _ (atoi : String → ℕ) where
  unfoldable pub parse_args : Settings → List Switch → Bool × Settings
  parse_args s [] = (true, s)
  parse_args s (switch_a optarg ∷ rest) = parse_args (record s { alg_name = optarg }) rest
  parse_args s (switch_p optarg ∷ rest) = parse_args (record s { num_threads = atoi optarg }) rest
  parse_args s (switch_d optarg ∷ rest) = parse_args (record s { duration = atoi optarg }) rest
  parse_args s (switch_r optarg ∷ rest) = parse_args (record s { ro_ratio = atoi optarg }) rest
  parse_args s (switch_m optarg ∷ rest) = parse_args (record s { key_range = atoi optarg }) rest
  parse_args s (switch_i optarg ∷ rest) = parse_args (record s { iteration = atoi optarg }) rest
  parse_args s (switch_t optarg ∷ rest) = parse_args (record s { test_num = atoi optarg }) rest
  parse_args s (switch_h ∷ rest) = (false, s)
  parse_args s (switch_other ∷ rest) = (false, s)

-- What a thread is started with, and where it leaves the number of its calls.
pub record ThreadArg : Type 0 where
  pub tid : ℕ
  pub set : ℕ
  pub ops : ℕ

-- The loop of `runBench` that starts the threads, `left` of them from number `j` on.
unfoldable pub thread_args : (set left j : ℕ) → List ThreadArg
thread_args set zero j = []
thread_args set (suc left) j = record { tid = j; set = set; ops = 0 } ∷ thread_args set left (suc j)

-- The loop that adds up what the threads did, on a `uint64_t`.
unfoldable pub total_ops : (total : ℕ) → List ThreadArg → ℕ
total_ops total [] = total
total_ops total (a ∷ args) = total_ops ((total + a.ops) % 2 ^ 64) args
