-- ===== src/Bench/Parse.antt =====
-- `parseArgs` of the benchmark, against the value that each setting ends with.
use Prim.Native.String.{String}
use mathlib.Core.List.{append-nil}
use efficient_lock_free_dura.Common.{
  ℕ, ◌≡◌, ◌∙◌, sym, ap, refl, Bool, true, false, List, [], ◌∷◌, ◌++◌, All,
}
use efficient_lock_free_dura.Bench.{
  Settings, Switch, switch_a, switch_p, switch_d, switch_r, switch_m, switch_i, switch_t, switch_h,
  switch_other, parse_args,
}

-- The switch sets a value.
abbrev pub is_setting : Switch → Bool
is_setting switch_h = false
is_setting switch_other = false
is_setting w = true

-- A value after the switches: what the last of those that concern it says, and the old one if there is none.
abbrev last_of : {A : Type 0} → (Switch → A → A) → A → List Switch → A
last_of sets old [] = old
last_of sets old (w ∷ ws) = last_of sets (sets w old) ws

abbrev sets_name : Switch → String → String
sets_name (switch_a optarg) old = optarg
sets_name w old = old

module _ (atoi : String → ℕ) where
  abbrev sets_threads : Switch → ℕ → ℕ
  sets_threads (switch_p optarg) old = atoi optarg
  sets_threads w old = old

  abbrev sets_duration : Switch → ℕ → ℕ
  sets_duration (switch_d optarg) old = atoi optarg
  sets_duration w old = old

  abbrev sets_ratio : Switch → ℕ → ℕ
  sets_ratio (switch_r optarg) old = atoi optarg
  sets_ratio w old = old

  abbrev sets_range : Switch → ℕ → ℕ
  sets_range (switch_m optarg) old = atoi optarg
  sets_range w old = old

  abbrev sets_iteration : Switch → ℕ → ℕ
  sets_iteration (switch_i optarg) old = atoi optarg
  sets_iteration w old = old

  abbrev sets_test : Switch → ℕ → ℕ
  sets_test (switch_t optarg) old = atoi optarg
  sets_test w old = old

  abbrev pub last_settings : Settings → List Switch → Settings
  last_settings s ws = record {
    alg_name = last_of sets_name s.alg_name ws;
    num_threads = last_of sets_threads s.num_threads ws;
    duration = last_of sets_duration s.duration ws;
    ro_ratio = last_of sets_ratio s.ro_ratio ws;
    key_range = last_of sets_range s.key_range ws;
    iteration = last_of sets_iteration s.iteration ws;
    sanity_mode = s.sanity_mode;
    test_num = last_of sets_test s.test_num ws;
  }

  parse_args-append :
      (s : Settings) (ws rest : List Switch)
      → All (λ w. is_setting w ≡ true) ws
      → parse_args atoi s (ws ++ rest) ≡ parse_args atoi (last_settings s ws) rest
  unfolding parse_args
  parse_args-append s [] rest h = refl
  parse_args-append s (switch_a optarg ∷ ws) rest (h, hs) =
      parse_args-append (record s { alg_name = optarg }) ws rest hs
  parse_args-append s (switch_p optarg ∷ ws) rest (h, hs) =
      parse_args-append (record s { num_threads = atoi optarg }) ws rest hs
  parse_args-append s (switch_d optarg ∷ ws) rest (h, hs) =
      parse_args-append (record s { duration = atoi optarg }) ws rest hs
  parse_args-append s (switch_r optarg ∷ ws) rest (h, hs) =
      parse_args-append (record s { ro_ratio = atoi optarg }) ws rest hs
  parse_args-append s (switch_m optarg ∷ ws) rest (h, hs) =
      parse_args-append (record s { key_range = atoi optarg }) ws rest hs
  parse_args-append s (switch_i optarg ∷ ws) rest (h, hs) =
      parse_args-append (record s { iteration = atoi optarg }) ws rest hs
  parse_args-append s (switch_t optarg ∷ ws) rest (h, hs) =
      parse_args-append (record s { test_num = atoi optarg }) ws rest hs
  parse_args-append s (switch_h ∷ ws) rest (h, hs) = cc
  parse_args-append s (switch_other ∷ ws) rest (h, hs) = cc

  parse_args-stop :
      (s : Settings) (after : List Switch) (stop : Switch)
      → is_setting stop ≡ false
      → parse_args atoi s (stop ∷ after) ≡ (false, s)
  unfolding parse_args
  parse_args-stop s after switch_h bad = refl
  parse_args-stop s after switch_other bad = refl
  parse_args-stop s after (switch_a optarg) bad = cc
  parse_args-stop s after (switch_p optarg) bad = cc
  parse_args-stop s after (switch_d optarg) bad = cc
  parse_args-stop s after (switch_r optarg) bad = cc
  parse_args-stop s after (switch_m optarg) bad = cc
  parse_args-stop s after (switch_i optarg) bad = cc
  parse_args-stop s after (switch_t optarg) bad = cc

  -- If all switches set a value, `parseArgs` answers true, and each setting has the value of the
  -- last switch that concerns it, or the one that it had. With a switch after them that sets none,
  -- the help or an unknown one, `parseArgs` answers false, whatever follows, and the settings are
  -- those up to there.
  pub parse_args-last :
      (s : Settings) (ws : List Switch)
      → All (λ w. is_setting w ≡ true) ws
      → (stop : Switch) (after : List Switch) → is_setting stop ≡ false
      → (parse_args atoi s ws ≡ (true, last_settings s ws))
        × (parse_args atoi s (ws ++ stop ∷ after) ≡ (false, last_settings s ws))
  unfolding parse_args
  parse_args-last s ws hs stop after bad = (
    ap (parse_args atoi s) (sym (append-nil ws)) ∙ parse_args-append s ws [] hs,
    parse_args-append s ws (stop ∷ after) hs ∙ parse_args-stop (last_settings s ws) after stop bad,
  )
