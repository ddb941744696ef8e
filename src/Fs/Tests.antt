-- ===== src/Fs/Tests.antt =====
-- Runs of the filesystem: a disk of 20000 sectors, formatted, and a file of three bytes named "a".
use jungey_os.Prelude.{ℕ, ◌≡◌, refl, some, List, [], ◌∷◌, arith}
use jungey_os.Disk.{Device, blank}
use jungey_os.Fs.{Checkpoint, encode, decode}
use jungey_os.Fs.Mount.{format}
use jungey_os.Fs.Log.{write}
use jungey_os.Fs.Roundtrip.{IsStorable, decode-encode}
use jungey_os.Fs.Root.{IsRoot, rebooted}
use jungey_os.Fs.Consistent.{IsSurvived, write-IsSurvived}
use jungey_os.Fs.Fresh.{fresh, format-IsRoot}

abbrev letter : List ℕ
letter = 97 ∷ []

abbrev text : List ℕ
text = 1 ∷ 2 ∷ 3 ∷ []

abbrev one_file : Checkpoint
one_file = record {
  seq = 2;
  log_head = 9;
  files =
      record {
        name =
            97 ∷ 0 ∷ 0 ∷ 0 ∷ 0 ∷ 0 ∷ 0 ∷ 0 ∷ 0 ∷ 0 ∷ 0 ∷ 0 ∷ 0 ∷ 0 ∷ 0 ∷ 0 ∷ 0 ∷ 0 ∷ 0 ∷ 0 ∷ 0 ∷ 0
            ∷ 0 ∷ 0 ∷ 0 ∷ 0 ∷ 0 ∷ 0 ∷ [];
        size = 3;
        start = 8;
        sectors = 1;
      }
      ∷ [];
}

one_file-IsStorable : IsStorable one_file
one_file-IsStorable = record {
  seq_fits = omega arith;
  head_fits = omega arith;
  count_fits = omega arith;
  entries = (
    record {
      name_len = refl;
      size_fits = omega arith;
      start_fits = omega arith;
      sectors_fits = omega arith;
    },
    tt,
  );
}

decode-encode_example : decode (encode one_file) ≡ some one_file
decode-encode_example = decode-encode one_file one_file-IsStorable

abbrev disk : Device
disk = rebooted (format 20000 (rebooted (λ n. blank))).1.sectors

disk-IsRoot : IsRoot (fresh 20000) disk.sectors
disk-IsRoot = (format-IsRoot 20000 (λ n. blank) (omega arith) (omega arith)).1

write-IsSurvived_example :
    IsSurvived
      (fresh 20000)
      letter
      text
      disk.sectors
      (write (fresh 20000) letter text (some 1) disk)
write-IsSurvived_example =
    write-IsSurvived (fresh 20000) letter text (some 1) disk disk-IsRoot (omega arith)
