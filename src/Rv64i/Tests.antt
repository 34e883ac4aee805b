-- ===== src/Rv64i/Tests.antt =====
-- Instances of the laws of the word instructions, and runs where the code departs from the manual.
use rev.Prelude.{ℕ, ◌+◌, ◌-◌, ◌^◌, ◌<◌, ◌≡◌, refl, arith, some}
use rev.RegFile.{get, put, set64, step64, x64}
use rev.Isa.{WordOp}
use rev.MemPort.{MemPort}
use rev.Fixtures.{start, inst, feature}
use rev.Word.{sext}
use rev.Rv32i.Writes.{Wrote64}
use rev.Rv64i.Alu
use rev.Rv64i.Refines.{run_word, word_64}

abbrev past_32 : ℕ → ℕ → ℕ
past_32 v k = 0

start_fits : (k : ℕ) → x64 start k < 2 ^ 64
unfolding get
start_fits k = ground arith

-- 7 - 10 as a word.
word_64_example :
    Wrote64 (inst 0) start (run_word WordOp.subw past_32 (feature 64) start (inst 0)) (2 ^ 64 - 3) 7
unfolding get
word_64_example =
    word_64 past_32 (feature 64) start (inst 0) start_fits WordOp.subw 7
      (λ e. absurd (ground arith))

-- A memory that answers every read with 9 and refuses no write.
abbrev nine : MemPort ℕ
nine = record {
  read_val = λ hart addr len m. some (m + 1, 9);
  write = λ hart addr len value m. some value;
  fence_mem = λ hart m. m;
  rand_cost = λ low high m. (m, low);
}

-- srliw rd, rd, 0 clears the register: the source is read after the destination is.
srliw_in_place : x64 (Alu.srliw (feature 64) start (record (inst 0) { rd = 5 }) past_32) 5 ≡ 0
unfolding Alu.srliw step64 set64 get put sext
srliw_in_place = refl
