-- ===== src/Build/Tests.antt =====
-- A boot sector of zeros, a kernel of 1500 bytes and a program of 3 bytes.
use so2_project.Common.{ℕ, zero, suc, some, true, List, [], ◌∷◌, ◌++◌, ◌==◌, if◌then◌else◌}
use so2_project.Build.{Host, Output, hdr}

abbrev filled : ℕ → ℕ → List ℕ
filled zero b = []
filled (suc n) b = b ∷ filled n b

abbrev boot_binary : List ℕ
boot_binary = hdr ++ (filled 24 0 ++ (filled 510 0 ++ (0x55 ∷ 0xaa ∷ [])))

abbrev kernel : List ℕ
kernel = filled 1500 7

abbrev program : List ℕ
program = 1 ∷ 2 ∷ 3 ∷ []

abbrev host : Host
host = record {
  argc = 4;
  file = λ i. if i == 1 then some boot_binary else if i == 2 then some kernel else some program;
  stat = λ i. if i == 2 then some 1500 else some 3;
  write_ok = λ p n. true;
  seek_ok = λ p. true;
}

abbrev output : Output
output = record { bytes = λ a. 0; position = 0 }
