-- ===== src/Kernel/Tests.antt =====
-- A machine with 64 MB less 64 KB, and the witness of the theorem on the start.
use ten_os.Kernel.{MultibootInfo, MemoryRegion, setup_memory}
use ten_os.Kernel.Memory.{setup_memory_lem}
use ten_os.Mm.Memory.Alloc.{IsValid}
use ten_os.Prelude.{ℕ, ◌+◌, ◌*◌, ◌%◌, ◌≡◌, arith}

abbrev bootinfo : MultibootInfo
bootinfo = record { memory_lo = 15360; memory_hi = 767; mmap_length = 48 }

-- All of it from 1 MB on.
abbrev regions : ℕ → MemoryRegion
regions i = record { start_lo = 0x100000; size_lo = 0x3EF0000; type = 1 }

setup_memory_lem_example :
    let m = setup_memory bootinfo regions (λ i. 0) in
    (m.max_blocks ≡ (1024 + 15360 + 767 * 64) % 4096 * 256) × IsValid m
setup_memory_lem_example =
    setup_memory_lem bootinfo regions (λ i. 0) (λ k. omega arith) (omega arith) (omega arith)
