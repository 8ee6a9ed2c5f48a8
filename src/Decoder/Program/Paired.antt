-- ===== src/Decoder/Program/Paired.antt =====
-- The files that tools/ibs_decoder/ibs_decoder.c writes to.
use amd_ibs_toolkit.Base.{
  ◌≡◌, refl, Bool, true, false, ◌&&◌, Option, none, some, List, [], ◌∷◌, Bool-cases, Option-cases,
  inl, inr,
}
use amd_ibs_toolkit.Text.{Bytes}
use amd_ibs_toolkit.Decoder.Work.{Table}
use amd_ibs_toolkit.Decoder.Stream.{decode_op_file}
use amd_ibs_toolkit.Decoder.Program

abbrev is_open : Option Bytes → Bool
is_open none = false
is_open (some name) = true

-- Each table goes to a file that is open.
abbrev pub all_open : List Program.Written → Bool
all_open [] = true
all_open (w ∷ ws) = is_open w.name && all_open ws

write_table-open :
    (decode : Bytes → Table) (file out : Option Bytes)
    → Program.is_unpaired file out ≡ false
    → all_open (Program.write_table decode file out) ≡ true
write_table-open decode none out h = refl
write_table-open decode (some bytes) none h = cc h
write_table-open decode (some bytes) (some name) h = refl

check_files-paired :
    (f g : Program.Files)
    → Program.check_files f ≡ some g
    → (Program.is_unpaired g.op_in_fp g.op_out_fp ≡ false)
      × (Program.is_unpaired g.fetch_in_fp g.fetch_out_fp ≡ false)
check_files-paired f g h = elim (Bool-cases (Program.is_unpaired f.op_in_fp f.op_out_fp)) [
  | inl bad ↦ absurd (cc (simp bad at h))
  | inr op_fine ↦ elim (Bool-cases (Program.is_unpaired f.fetch_in_fp f.fetch_out_fp)) [
    | inl bad ↦ absurd (cc (simp (op_fine, bad) at h))
    | inr fetch_fine ↦
        let same : f ≡ g = cc (simp (op_fine, fetch_fine) at h) in rw (← same) (op_fine, fetch_fine)
  ]
]

-- Whatever options the decoder is given, if it does not stop at them each table that it makes goes
-- to a file that is open.
main-open :
    (disk : Program.Disk) (args : List Program.Argument)
    (tables : List Program.Written × List Program.Written)
    → Program.main disk args ≡ some tables
    → (all_open tables.0 ≡ true) × (all_open tables.1 ≡ true)
unfolding Program.main Program.parse_args
main-open disk args tables e =
    elim (Option-cases (Program.set_arguments disk args Program.no_files)) [
      | inl ended ↦ absurd (cc (simp ended at e))
      | inr (f, parsed) ↦ elim (Option-cases (Program.check_files f)) [
        | inl refused ↦ absurd (cc (simp (parsed, refused) at e))
        | inr (g, checked) ↦
            let (ops, fetches) = check_files-paired f g checked in
            let made : List Program.Written × List Program.Written = (
              Program.write_table decode_op_file g.op_in_fp g.op_out_fp,
              Program.write_table Program.decode_fetch_file g.fetch_in_fp g.fetch_out_fp,
            ) in
            let same : made ≡ tables = cc (simp (parsed, checked) at e) in
            rw (← same) (
              write_table-open decode_op_file g.op_in_fp g.op_out_fp ops,
              write_table-open Program.decode_fetch_file g.fetch_in_fp g.fetch_out_fp fetches,
            )
      ]
    ]
