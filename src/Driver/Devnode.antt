-- ===== src/Driver/Devnode.antt =====
-- The names of the devices: `ibs_device_create` and `ibs_devnode` of driver/ibs-core.c as built for
-- kernels from 2.6.32 on, and `ibs_op_dev_path` and `ibs_fetch_dev_path` of lib/ibs.c, which open
-- them.
use amd_ibs_toolkit.Base.{
  ℕ, suc, ◌+◌, ◌-◌, ◌*◌, ◌%◌, ◌^◌, ◌≤◌, ◌<◌, ◌≡◌, refl, arith, ap, sym, ◌∙◌, zero, ◌==◌, true,
  false,
}
use amd_ibs_toolkit.Base.{List, [], ◌∷◌, ◌++◌, take, length, length-append, append_assoc}
use amd_ibs_toolkit.Text.{Bytes, codes, print_dec}
use amd_ibs_toolkit.Text.Decimal.{length-dec_digits_below}
use amd_ibs_toolkit.Driver.Registers.{Flavor, ibs_op, ibs_fetch, ibs_minor, ibs_cpu, ibs_flavor}

abbrev pub flavor_name : Flavor → Bytes
flavor_name ibs_op = codes "op"
flavor_name ibs_fetch = codes "fetch"

-- The name that `device_create` gets.
unfoldable pub device_name : Flavor → ℕ → Bytes
device_name flavor cpu = codes "ibs_" ++ flavor_name flavor ++ codes "_" ++ print_dec cpu

-- The path of the node below /dev.
unfoldable pub ibs_devnode : ℕ → Bytes
ibs_devnode minor =
    codes "cpu/" ++ print_dec (ibs_cpu minor) ++ codes "/ibs/" ++ flavor_name (ibs_flavor minor)

-- `snprintf` into `path_len` bytes, of which the last is 0.
unfoldable pub ibs_dev_path : Flavor → ℕ → ℕ → Bytes
ibs_dev_path ibs_op cpu path_len =
    take (path_len - 1) (codes "/dev/cpu/" ++ print_dec cpu ++ codes "/ibs/op")
ibs_dev_path ibs_fetch cpu path_len =
    take (path_len - 1) (codes "/dev/cpu/" ++ print_dec cpu ++ codes "/ibs/fetch")

-- The lengths that `do_ibs_initialize` passes.
abbrev pub path_len : Flavor → ℕ
path_len ibs_op = 256
path_len ibs_fetch = 32

take-whole {ℓ} : {A : Type ℓ} (n : ℕ) (xs : List A) → length xs ≤ n → take n xs ≡ xs
take-whole zero [] h = refl
take-whole zero (x ∷ xs) h = absurd (omega (arith, h))
take-whole (suc n) [] h = refl
take-whole (suc n) (x ∷ xs) h = ap (◌∷◌ x) (take-whole n xs (omega (arith, h)))

length-path_cpu : (cpu : ℕ) → cpu < 2 ^ 31 → length (print_dec cpu) ≤ 10
unfolding print_dec
length-path_cpu cpu h = length-dec_digits_below 20 9 cpu (omega (arith, h))

minor-cpu : (flavor : Flavor) (cpu : ℕ) → ibs_cpu (ibs_minor flavor cpu) ≡ cpu
minor-cpu ibs_op cpu = omega arith
minor-cpu ibs_fetch cpu = omega arith

minor-flavor : (flavor : Flavor) (cpu : ℕ) → ibs_flavor (ibs_minor flavor cpu) ≡ flavor
minor-flavor ibs_op cpu = let even : (cpu * 2 + 0) % 2 == 0 ≡ true = ground arith in rw even refl
minor-flavor ibs_fetch cpu = let odd : (cpu * 2 + 1) % 2 == 0 ≡ false = ground arith in rw odd refl

-- The path that the library opens for a CPU, in the buffer that it has for it, is the one below
-- /dev that the driver gives to the node of that CPU and flavor, if the number of the CPU is
-- an `int`.
pub ibs_dev_path-ibs_devnode :
    (flavor : Flavor) (cpu : ℕ)
    → cpu < 2 ^ 31
    → ibs_dev_path flavor cpu (path_len flavor)
      ≡ codes "/dev/" ++ ibs_devnode (ibs_minor flavor cpu)
unfolding ibs_dev_path ibs_devnode
ibs_dev_path-ibs_devnode ibs_op cpu h =
    let short = length-path_cpu cpu h in
    let path = codes "/dev/cpu/" ++ print_dec cpu ++ codes "/ibs/op" in
    rw (minor-cpu ibs_op cpu, minor-flavor ibs_op cpu)
      (take-whole 255 path (simp length-append (omega (arith, short)))
        ∙ ap (λ t. codes "/dev/cpu/" ++ t)
            (sym (append_assoc (print_dec cpu) (codes "/ibs/") (codes "op"))))
ibs_dev_path-ibs_devnode ibs_fetch cpu h =
    let short = length-path_cpu cpu h in
    let path = codes "/dev/cpu/" ++ print_dec cpu ++ codes "/ibs/fetch" in
    rw (minor-cpu ibs_fetch cpu, minor-flavor ibs_fetch cpu)
      (take-whole 31 path (simp length-append (omega (arith, short)))
        ∙ ap (λ t. codes "/dev/cpu/" ++ t)
            (sym (append_assoc (print_dec cpu) (codes "/ibs/") (codes "fetch"))))
