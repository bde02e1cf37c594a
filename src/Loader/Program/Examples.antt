-- ===== src/Loader/Program/Examples.antt =====
-- A system with one file, at which the property of the program that loads one file is applied.
use fluxel_bases.Prelude.{ℕ, ◌≡◌, refl, true, some, none, [], ◌∷◌, arith}
use fluxel_bases.Loader.Failure.{done}
use fluxel_bases.Loader.Key.{
  PathBuf, root_dir, cur_dir, normal, components, normalized, any_prefix, new_key, trailing,
}
use fluxel_bases.Loader.Examples.{one_file, whole, read_one-Reads}
use fluxel_bases.Loader.Program.{System, during_wait, file_program}
use fluxel_bases.Loader.Program.Fetched.{file_program-content}

abbrev one_system : System ℕ ℕ
one_system = record {
  files = one_file;
  metadata_length = λ _. done 2;
  is_absolute = λ _. true;
  current_dir = done [];
  drive_relative = record { kind = 0; message = 0 };
  usize_max = 8;
}

abbrev dotted_path : PathBuf
dotted_path = root_dir ∷ cur_dir ∷ normal (b'a' ∷ []) ∷ []

abbrev plain_path : PathBuf
plain_path = root_dir ∷ normal (b'a' ∷ []) ∷ []

file_program-content_example :
    (file_program {W = ℕ}
        (λ _ _. true)
        (λ _. true)
        5
        one_system
        (during_wait 1000)
        (dotted_path ∷ [])
      ≡ some (b'h' ∷ b'i' ∷ [], none))
    × (file_program {W = ℕ}
          (λ _ _. true)
          (λ _. true)
          5
          one_system
          (during_wait 1000)
          (dotted_path ∷ plain_path ∷ [])
        ≡ some (b'h' ∷ b'i' ∷ [], some plain_path))
file_program-content_example =
    file_program-content {W = ℕ} (λ _ _. true) (λ _. true) 5 one_system (during_wait 1000)
      dotted_path plain_path plain_path whole (b'h' ∷ b'i' ∷ [])
      (record {
        keyed = unfold new_key normalized components any_prefix trailing in refl;
        measured = refl;
        readable = record {
          opens = refl;
          measures = refl;
          fits = omega arith;
          reads = read_one-Reads;
        };
        fits = omega arith;
        room = omega arith;
      })
      (omega arith) refl (λ _ _. refl)
