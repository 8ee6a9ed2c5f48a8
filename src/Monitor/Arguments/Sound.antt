-- ===== src/Monitor/Arguments/Sound.antt =====
-- What `parse_args` of tools/ibs_monitor/ibs_monitor.c keeps true of the settings.
use amd_ibs_toolkit.Base.{
  ℕ, ◌%◌, ◌==◌, ◌^◌, ◌≤◌, ◌≡◌, refl, arith, Bool, true, false, ◌&&◌, ltb, leb, if◌then◌else◌,
}
use amd_ibs_toolkit.Base.{Option, none, some, List, [], ◌∷◌, Option-cases, inl, inr}
use amd_ibs_toolkit.Text.{Bytes}
use amd_ibs_toolkit.Monitor.Cpu.{Cpuid}
use amd_ibs_toolkit.Monitor.Settings.{
  ℤ, pos, negsuc, Settings, set_global_op_sample_rate, set_global_fetch_sample_rate, kilobytes,
  set_global_buffer_size, set_global_poll_percent, set_global_poll_timeout, max_op_sample_rate,
}
use amd_ibs_toolkit.Monitor.Arguments

-- The ranges that the checks of the settings ask for; the buffer is whole kilobytes, but may have
-- any size, since the product wraps around.
abbrev pub in_range : Settings → Bool
in_range s =
    leb 9 s.op_cnt_max_to_set
    && ltb s.op_cnt_max_to_set (2 ^ 23)
    && ltb s.fetch_cnt_max_to_set (2 ^ 16)
    && s.buffer_size % 1024 == 0
    && leb s.poll_percent 100
    && leb 1 s.poll_timeout

-- The same of settings that there may be.
abbrev in_range_if : Option Settings → Bool
in_range_if none = true
in_range_if (some s) = in_range s

fetch_rate-in_range :
    (n : ℤ) (s : Settings)
    → in_range s ≡ true
    → in_range_if (set_global_fetch_sample_rate n s) ≡ true
unfolding set_global_fetch_sample_rate
fetch_rate-in_range (negsuc n) s h = refl
fetch_rate-in_range (pos n) s h = ground (arith, h)

kilobytes-whole : (n : ℕ) → kilobytes n % 1024 == 0 ≡ true
kilobytes-whole n = ground arith

buffer_size-in_range :
    (n : ℤ) (s : Settings) → in_range s ≡ true → in_range_if (set_global_buffer_size n s) ≡ true
unfolding set_global_buffer_size
buffer_size-in_range (negsuc n) s h = refl
buffer_size-in_range (pos n) s h = ground (arith, h, kilobytes-whole n)

poll_percent-in_range :
    (n : ℤ) (s : Settings) → in_range s ≡ true → in_range_if (set_global_poll_percent n s) ≡ true
unfolding set_global_poll_percent
poll_percent-in_range (negsuc n) s h = refl
poll_percent-in_range (pos n) s h = ground (arith, h)

poll_timeout-in_range :
    (n : ℤ) (s : Settings) → in_range s ≡ true → in_range_if (set_global_poll_timeout n s) ≡ true
unfolding set_global_poll_timeout
poll_timeout-in_range (negsuc n) s h = refl
poll_timeout-in_range (pos n) s h = ground (arith, h)

max_rate : (cpuid : Cpuid) → max_op_sample_rate cpuid ≤ 2 ^ 27
max_rate cpuid = ground arith

op_rate-in_range :
    (cpuid : Cpuid) (n : ℤ) (s : Settings)
    → in_range s ≡ true
    → in_range_if (set_global_op_sample_rate cpuid n s) ≡ true
unfolding set_global_op_sample_rate
op_rate-in_range cpuid (negsuc n) s h = refl
op_rate-in_range cpuid (pos n) s h = ground (arith, h, max_rate cpuid)

abbrev is_file : Option Bytes → Bool
is_file none = false
is_file (some name) = true

-- Settings in range, and a file for each flavor that is wanted.
pub record IsSound (a : Arguments.Arguments) : Type 0 where
  pub settings : in_range a.settings ≡ true
  pub op_wanted : a.wants_op ≡ is_file a.opf
  pub fetch_wanted : a.wants_fetch ≡ is_file a.fetchf

-- `IsSound` of arguments that there may be.
abbrev SoundIf : Option Arguments.Arguments → Type 0
SoundIf none = Unit
SoundIf (some a) = IsSound a

with_settings-Sound :
    (o : Option Settings) (a : Arguments.Arguments)
    → IsSound a
    → in_range_if o ≡ true
    → SoundIf (Arguments.with_settings o a)
with_settings-Sound none a s h = tt
with_settings-Sound (some new) a s h = record {
  settings = h;
  op_wanted = s.op_wanted;
  fetch_wanted = s.fetch_wanted;
}

open_file-Sound :
    (ok : Bool) (a : Arguments.Arguments) → IsSound a → SoundIf (if ok then some a else none)
open_file-Sound true a s = s
open_file-Sound false a s = tt

set_argument-Sound :
    (cpuid : Cpuid) (opens : Bytes → Bool) (arg : Arguments.Argument) (a : Arguments.Arguments)
    → IsSound a
    → SoundIf (Arguments.set_argument cpuid opens arg a)
unfolding Arguments.set_argument Arguments.set_op_file Arguments.set_fetch_file
    Arguments.set_working_dir Arguments.set_ld_debug_name
set_argument-Sound cpuid opens (Arguments.op_file name) a s =
    open_file-Sound (opens name) _
      (record { settings = s.settings; op_wanted = refl; fetch_wanted = s.fetch_wanted })
set_argument-Sound cpuid opens (Arguments.fetch_file name) a s =
    open_file-Sound (opens name) _
      (record { settings = s.settings; op_wanted = s.op_wanted; fetch_wanted = refl })
set_argument-Sound cpuid opens (Arguments.library_map name) a s = record {
  settings = s.settings;
  op_wanted = s.op_wanted;
  fetch_wanted = s.fetch_wanted;
}
set_argument-Sound cpuid opens (Arguments.working_dir dir) a s = record {
  settings = s.settings;
  op_wanted = s.op_wanted;
  fetch_wanted = s.fetch_wanted;
}
set_argument-Sound cpuid opens (Arguments.op_sample_rate n) a s =
    with_settings-Sound _ a s (op_rate-in_range cpuid (Arguments.atoi n) a.settings s.settings)
set_argument-Sound cpuid opens (Arguments.fetch_sample_rate n) a s =
    with_settings-Sound _ a s (fetch_rate-in_range (Arguments.atoi n) a.settings s.settings)
set_argument-Sound cpuid opens (Arguments.buffer_size n) a s =
    with_settings-Sound _ a s (buffer_size-in_range (Arguments.atoi n) a.settings s.settings)
set_argument-Sound cpuid opens (Arguments.poll_percent n) a s =
    with_settings-Sound _ a s (poll_percent-in_range (Arguments.atoi n) a.settings s.settings)
set_argument-Sound cpuid opens (Arguments.poll_timeout n) a s =
    with_settings-Sound _ a s (poll_timeout-in_range (Arguments.atoi n) a.settings s.settings)
set_argument-Sound cpuid opens Arguments.help a s = tt
set_argument-Sound cpuid opens Arguments.bad_argument a s = s

SoundIf-some :
    (out : Option Arguments.Arguments) (a : Arguments.Arguments)
    → SoundIf out
    → out ≡ some a
    → IsSound a
SoundIf-some none a s e = absurd (cc e)
SoundIf-some (some b) a s e = let same : b ≡ a = cc e in rw (← same) s

-- Whatever options `parse_args` is given, if it returns at all it leaves the counts within the
-- counters of the driver, a buffer of whole kilobytes, a percentage up to 100, a timeout of at
-- least 1, and a flavor wanted just where there is a file for it, if all that held before.
pub parse_args-IsSound :
    (cpuid : Cpuid) (opens : Bytes → Bool) (args : List Arguments.Argument)
    (a a' : Arguments.Arguments)
    → IsSound a
    → Arguments.parse_args cpuid opens args a ≡ some a'
    → IsSound a'
unfolding Arguments.parse_args
parse_args-IsSound cpuid opens [] a a' s e = SoundIf-some (some a) a' s e
parse_args-IsSound cpuid opens (arg ∷ args) a a' s e =
    elim (Option-cases (Arguments.set_argument cpuid opens arg a)) [
      | inl ended ↦ absurd (cc (simp ended at e))
      | inr (next, going) ↦
          parse_args-IsSound cpuid opens args next a'
            (SoundIf-some (Arguments.set_argument cpuid opens arg a) next
              (set_argument-Sound cpuid opens arg a s) going)
            (simp going at e)
    ]
