-- ===== src/Tests/VmTests.antt =====
-- Runs of the page tables of xv6/vm.c.
use buffer_overflow_attack.Base.{arith, inl, refl, some, true, ◌≡◌}
use buffer_overflow_attack.Kalloc.{Kmem, ok}
use buffer_overflow_attack.Str.{word_at}
use buffer_overflow_attack.Mmu.{p2v}
use buffer_overflow_attack.Vm.{map_page, uva2ka}
use buffer_overflow_attack.Vm.Space.{dealloc_from}
use buffer_overflow_attack.Vm.Rounds.{dealloc_from-Ended}
use buffer_overflow_attack.Dir.Walk.{Ended}
use buffer_overflow_attack.Vm.Map.{map_page-uva2ka, CanMap, by_table}

-- An empty directory at 0x80500000, and a free page at 0x80400000.
abbrev pages : Kmem
pages = record { mem = λ x. 0; freelist = 0x80400000 }

pages-CanMap : CanMap 0x80500000 0x3000 pages
unfolding word_at
pages-CanMap = by_table refl refl (omega arith) (omega arith) (inl (omega arith))

map_page-uva2ka_example :
    (k' : Kmem) × (map_page 0x80500000 0x3000 0x600000 6 pages ≡ ok (true, k'))
    × (uva2ka 0 k'.mem 0x80500000 0x3000 ≡ some (p2v 0x600000))
map_page-uva2ka_example =
    map_page-uva2ka 0 0x80500000 0x3000 0x600000 6 pages pages-CanMap
      (record { aligned = refl; small = omega arith; flags = omega arith; user = refl })

dealloc_from-Ended_example : Ended (dealloc_from 0x80100000 4 0x80500000 0 0x3000 pages)
dealloc_from-Ended_example =
    dealloc_from-Ended 0x80100000 0x80500000 0x3000 3 0 pages refl (omega arith) (omega arith)
