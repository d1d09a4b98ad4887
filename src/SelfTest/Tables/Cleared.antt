-- ===== src/SelfTest/Tables/Cleared.antt =====
-- The loop of build_test_tables of src/mmu.c over memory that is still blank.
use rv32i_emu.Base.{ℕ, zero, suc, ◌+◌, ◌*◌, ◌≤◌, ◌≡◌, refl, ap, ◌∙◌, arith, List, update}
use mathlib.Core.Path.{fun_ext}
use rv32i_emu.Memory.{mem_size, ok, Memory, store_word, memory_write32}
use rv32i_emu.Memory.Laws.{checked_within}
use rv32i_emu.Machine.{Emulator, done, with_mem}
use rv32i_emu.Machine.Runs.{bind-done}
use rv32i_emu.SelfTest.{write_word}
use rv32i_emu.SelfTest.Tables.{t_root, t_l2, t_l2b, clear_tables}

update_blank : (a : ℕ) → update {A = ℕ} (λ _. 0) a 0 ≡ (λ _. 0)
update_blank a = fun_ext (λ j. ground arith)

store_blank : (a : ℕ) → store_word (λ _. 0) a 0 ≡ (λ _. 0)
unfolding store_word
store_blank a =
    ap (λ d. update (update (update d (a + 1) 0) (a + 2) 0) (a + 3) 0) (update_blank a)
    ∙ ap (λ d. update (update d (a + 2) 0) (a + 3) 0) (update_blank (a + 1))
    ∙ ap (λ d. update d (a + 3) 0) (update_blank (a + 2))
    ∙ update_blank (a + 3)

write_word_ok :
    (a v : ℕ) (e : Emulator) (m : Memory)
    → memory_write32 e.mem a v ≡ ok m
    → write_word a v e ≡ done tt (with_mem m e)
unfolding write_word
write_word_ok a v e m h = rw (write_word, h) refl

module _ (e : Emulator) (out : List ℕ) where
  blank_memory : (ℕ → ℕ) → Memory
  blank_memory d = record { data_bytes = d; size = mem_size; console = out }

  unfoldable pub blank : Emulator
  unfolding blank_memory
  blank = with_mem (blank_memory (λ _. 0)) e

  write_word-blank : (a : ℕ) → a + 4 ≤ mem_size → write_word a 0 blank ≡ done tt blank
  unfolding memory_write32 blank blank_memory
  write_word-blank a h =
      write_word_ok a 0 blank (blank_memory (store_word (λ _. 0) a 0))
        (checked_within (blank_memory (λ _. 0)) a 4 _ h (omega arith))
      ∙ ap (λ d. done tt (with_mem (blank_memory d) e)) (store_blank a)

  -- Clearing the tables of blank memory changes nothing.
  pub clear_tables-blank : (n i : ℕ) → n + i ≤ 1024 → clear_tables n i blank ≡ done tt blank
  unfolding clear_tables blank
  clear_tables-blank zero i h = refl
  clear_tables-blank (suc n) i h = bind-done _ (write_word-blank (t_root + i * 4) (omega arith)) (
      bind-done _ (write_word-blank (t_l2 + i * 4) (omega arith)) (
        bind-done _ (write_word-blank (t_l2b + i * 4) (omega arith))
          (clear_tables-blank n (i + 1) (omega arith))))
