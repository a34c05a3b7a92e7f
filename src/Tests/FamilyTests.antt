-- ===== src/Tests/FamilyTests.antt =====
-- Runs of `exit`, `wait` and `growproc` of xv6/proc.c.
use buffer_overflow_attack.Base.{
  List, [], ap, arith, false, if◌then◌else◌, inr, modify, pos, refl, some, suc, zero, ℕ, ◌%◌, ◌*◌,
  ◌+◌, ◌<◌, ◌==◌, ◌∙◌, ◌∷◌, ◌≡◌, ◌≤◌, ◌⊎◌,
}
use buffer_overflow_attack.Kalloc.{Kmem, Outcome, kfree, ok, panic}
use buffer_overflow_attack.Str.{word_at}
use buffer_overflow_attack.Vm.Space.{deallocuvm}
use buffer_overflow_attack.Kalloc.Chain.{Holds, IsPage, kfree-push}
use buffer_overflow_attack.Vm.Empty.{NoTables, freevm-NoTables}
use buffer_overflow_attack.Str.Word.{word_at-congr}
use buffer_overflow_attack.Mmu.{page_size}
use buffer_overflow_attack.Proc.{Kernel, Proc, running, sleeping, zombie}
use buffer_overflow_attack.Proc.Family.{exit, leave, on_slot, wait, World, reaped, vacant}
use buffer_overflow_attack.Proc.Family.Awaited.{Awaited}
use buffer_overflow_attack.Proc.Family.Scan.{Runs, Child}
use buffer_overflow_attack.Proc.Family.Exit.{exit-Awaited}
use buffer_overflow_attack.Proc.Family.Reaped.{leave_wakes}
use buffer_overflow_attack.Proc.Family.Wait.{wait-Keeps, Keeps}
use buffer_overflow_attack.Fs.Covered.{Ends}
use buffer_overflow_attack.Pipe.{init_pipe}
use buffer_overflow_attack.Tests.KernelTests.{empty_slot, kernel_of, no_memory, no_memory-Holds}
use buffer_overflow_attack.Tests.FsTests.{sb, system}

abbrev ptable : ℕ
ptable = 0x80110000

-- The first process sleeps in `wait`; its child runs, and has a child that is a zombie.
abbrev parent_proc : Proc
parent_proc = record empty_slot { state = sleeping; chan = 0x80110000; pid = pos 1 }

abbrev child_proc : Proc
child_proc = record empty_slot { state = running; parent = some 0; cwd = 1; pid = pos 2 }

abbrev zombie_proc : Proc
zombie_proc = record empty_slot { state = zombie; parent = some 1; pid = pos 3 }

abbrev family : List Proc
family = parent_proc ∷ child_proc ∷ zombie_proc ∷ []

family-Awaited : Awaited ptable family
family-Awaited zero zero p q at_p at_q a on_slot child dead = cc
family-Awaited zero (suc zero) p q at_p at_q a on_slot child dead = cc
family-Awaited zero (suc (suc zero)) p q at_p at_q a on_slot child dead = cc
family-Awaited zero (suc (suc (suc j))) p q at_p at_q a on_slot child dead = cc
family-Awaited (suc zero) j p q at_p at_q a on_slot child dead = cc
family-Awaited (suc (suc zero)) j p q at_p at_q a on_slot child dead = cc
family-Awaited (suc (suc (suc i))) j p q at_p at_q a on_slot child dead = cc

family-Child : Child 1 0 family
family-Child = (child_proc, refl, refl)

abbrev family_kernel : Kernel
family_kernel = kernel_of family no_memory

-- The child with a stack and an empty directory.
abbrev whole_child : Proc
whole_child = record child_proc { kstack = 0x80300000; pgdir = 0x80400000 }

abbrev whole_family : List Proc
whole_family = parent_proc ∷ whole_child ∷ zombie_proc ∷ []

whole_family-Awaited : Awaited ptable whole_family
whole_family-Awaited zero zero p q at_p at_q a on_slot child dead = cc
whole_family-Awaited zero (suc zero) p q at_p at_q a on_slot child dead = cc
whole_family-Awaited zero (suc (suc zero)) p q at_p at_q a on_slot child dead = cc
whole_family-Awaited zero (suc (suc (suc j))) p q at_p at_q a on_slot child dead = cc
whole_family-Awaited (suc zero) j p q at_p at_q a on_slot child dead = cc
whole_family-Awaited (suc (suc zero)) j p q at_p at_q a on_slot child dead = cc
whole_family-Awaited (suc (suc (suc i))) j p q at_p at_q a on_slot child dead = cc

abbrev whole_kernel : Kernel
whole_kernel = kernel_of whole_family no_memory

stack-IsPage : IsPage 0x80100000 0x80300000
stack-IsPage = omega arith

space-IsPage : IsPage 0x80100000 0x80400000
space-IsPage = omega arith

-- The memory behind the `kfree` of the stack.
stack_freed :
    (k : Kmem) × (kfree 0x80100000 no_memory 0x80300000 ≡ ok k)
    × Holds 0x80100000 k (0x80300000 ∷ [])
    × ((x : ℕ) → (x < 0x80300000) ⊎ (0x80300000 + page_size ≤ x) → k.mem x ≡ 0)
stack_freed = kfree-push 0x80100000 0x80300000 no_memory-Holds stack-IsPage tt

space-NoTables : NoTables stack_freed.0.mem 0x80400000
unfolding word_at
space-NoTables i lt =
    ap (λ w. w % 2 == 1)
      (word_at-congr (λ x. 0) stack_freed.0.mem (0x80400000 + i * 4)
        λ b small. stack_freed.3 (0x80400000 + i * 4 + b) (inr (omega arith)))

space_freed :
    (k : Kmem) × (kfree 0x80100000 stack_freed.0 0x80400000 ≡ ok k)
    × Holds 0x80100000 k (0x80400000 ∷ 0x80300000 ∷ [])
    × ((x : ℕ) → (x < 0x80400000) ⊎ (0x80400000 + page_size ≤ x) → k.mem x ≡ stack_freed.0.mem x)
space_freed =
    kfree-push 0x80100000 0x80400000 stack_freed.2 space-IsPage ((λ e. absurd (omega arith)), tt)

leave_wakes_example :
    Runs 0 (leave ptable 1 5 (some 0) whole_family)
    × (wait ptable 0x80100000 0
          (record whole_kernel { procs = leave ptable 1 5 (some 0) whole_family })
        ≡ ok (
            reaped (pos 2) (record whole_kernel {
              kmem = space_freed.0;
              procs = modify (leave ptable 1 5 (some 0) whole_family) 1 vacant;
            })))
leave_wakes_example =
    leave_wakes ptable 0x80100000 1 0 5 whole_kernel parent_proc whole_child stack_freed.0
      space_freed.0 (λ e. cc) (λ e. cc) whole_family-Awaited refl refl refl refl refl stack_freed.1
      (freevm-NoTables 0x80100000 0x80400000 stack_freed.0 space-NoTables refl ∙ space_freed.1)

abbrev family_world : World
family_world = record {
  kernel = family_kernel;
  sys = record { fs = system; files = []; pipes = λ a. init_pipe []; freed = [] };
}

exit-Awaited_example :
    Ends (exit sb 1 false ptable 0 1 family_world) (λ w'. Awaited ptable w'.kernel.procs)
exit-Awaited_example =
    exit-Awaited ptable sb 1 false 0 1 0 family_world (λ e. cc) family-Child family-Awaited

wait-Keeps_example : Ends (wait ptable 0x80100000 0 family_kernel) (Keeps ptable)
wait-Keeps_example = wait-Keeps ptable 0x80100000 0 family_kernel family-Awaited

-- A process with one page, whose directory is at 0x80400000 and whose table is at 0x80500000.
abbrev one_mapped : Kmem
one_mapped = record {
  mem = λ a.
      if a == 0x80400000
      then 7
      else if a == 0x80400002
      then 0x50
      else if a == 0x80500000
      then 7
      else if a == 0x80500002
      then 0x60
      else 0;
  freelist = 0;
}

abbrev small_proc : Proc
small_proc = record empty_slot {
  state = running;
  sz = 4096;
  pgdir = 0x80400000;
  kstack = 0x80300000;
}

abbrev or_mapped : Outcome (ℕ × Kmem) → Kmem
or_mapped (ok r) = r.1
or_mapped panic = one_mapped

abbrev page_freed : Kmem
page_freed = or_mapped (deallocuvm 0x80100000 0x80400000 4096 0 one_mapped)

freed : deallocuvm 0x80100000 0x80400000 4096 0 one_mapped ≡ ok (0, page_freed)
unfolding deallocuvm word_at
freed = refl
