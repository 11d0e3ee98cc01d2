-- ===== src/Csr.antt =====
-- kernel/include/riscv/csr.h: the control and status registers and the instruction texts that
-- `csrw` and `csrr` hand to the assembler. What the instructions do is not modelled.
use Prim.Native.String.{String, ◌++◌ as append}
use octiron.Base.{◌≡◌, refl}

pub data Csr : Type 0 where
  medeleg mideleg mie mstatus mtvec : Csr
  mip mcounteren pmpaddr0 pmpcfg0 sstatus : Csr
  stvec sip sie scounteren sscratch : Csr
  sepc scause stval senvcfg satp : Csr

unfoldable pub csrw_asm_string_view : Csr → String
csrw_asm_string_view medeleg = "csrw medeleg, %0"
csrw_asm_string_view mideleg = "csrw mideleg, %0"
csrw_asm_string_view mie = "csrw mie, %0"
csrw_asm_string_view mstatus = "csrw mstatus, %0"
csrw_asm_string_view mtvec = "csrw mtvec, %0"
csrw_asm_string_view mip = "csrw mip, %0"
csrw_asm_string_view mcounteren = "csrw mcounteren, %0"
csrw_asm_string_view pmpaddr0 = "csrw pmpaddr0, %0"
csrw_asm_string_view pmpcfg0 = "csrw pmpcfg0, %0"
csrw_asm_string_view sstatus = "csrw sstatus, %0"
csrw_asm_string_view stvec = "csrw stvec, %0"
csrw_asm_string_view sip = "csrw sip, %0"
csrw_asm_string_view sie = "csrw sie, %0"
csrw_asm_string_view scounteren = "csrw scounteren, %0"
csrw_asm_string_view sscratch = "csrw sscratch, %0"
csrw_asm_string_view sepc = "csrw sepc, %0"
csrw_asm_string_view scause = "csrw scause, %0"
csrw_asm_string_view stval = "csrw stval, %0"
csrw_asm_string_view senvcfg = "csrw senvcfg, %0"
csrw_asm_string_view satp = "csrw satp, %0"

unfoldable pub csrr_asm_string_view : Csr → String
csrr_asm_string_view medeleg = "csrr %0, medeleg"
csrr_asm_string_view mideleg = "csrr %0, mideleg"
csrr_asm_string_view mie = "csrr %0, mie"
csrr_asm_string_view mstatus = "csrr %0, mstatus"
csrr_asm_string_view mtvec = "csrr %0, mtvec"
csrr_asm_string_view mip = "csrr %0, mip"
csrr_asm_string_view mcounteren = "csrr %0, mcounteren"
csrr_asm_string_view pmpaddr0 = "csrr %0, pmpaddr0"
csrr_asm_string_view pmpcfg0 = "csrr %0, pmpcfg0"
csrr_asm_string_view sstatus = "csrr %0, sstatus"
csrr_asm_string_view stvec = "csrr %0, stvec"
csrr_asm_string_view sip = "csrr %0, sip"
csrr_asm_string_view sie = "csrr %0, sie"
csrr_asm_string_view scounteren = "csrr %0, scounteren"
csrr_asm_string_view sscratch = "csrr %0, sscratch"
csrr_asm_string_view sepc = "csrr %0, sepc"
csrr_asm_string_view scause = "csrr %0, scause"
csrr_asm_string_view stval = "csrr %0, stval"
csrr_asm_string_view senvcfg = "csrr %0, senvcfg"
csrr_asm_string_view satp = "csrr %0, satp"

-- The assembler's name of a register.
abbrev mnemonic : Csr → String
mnemonic medeleg = "medeleg"
mnemonic mideleg = "mideleg"
mnemonic mie = "mie"
mnemonic mstatus = "mstatus"
mnemonic mtvec = "mtvec"
mnemonic mip = "mip"
mnemonic mcounteren = "mcounteren"
mnemonic pmpaddr0 = "pmpaddr0"
mnemonic pmpcfg0 = "pmpcfg0"
mnemonic sstatus = "sstatus"
mnemonic stvec = "stvec"
mnemonic sip = "sip"
mnemonic sie = "sie"
mnemonic scounteren = "scounteren"
mnemonic sscratch = "sscratch"
mnemonic sepc = "sepc"
mnemonic scause = "scause"
mnemonic stval = "stval"
mnemonic senvcfg = "senvcfg"
mnemonic satp = "satp"

-- For each register the write instruction is `csrw`, its own name and the operand, and the read
-- instruction is `csrr`, the operand and its own name.
pub asm_texts :
    (r : Csr)
    → (csrw_asm_string_view r ≡ append (append "csrw " (mnemonic r)) ", %0")
      × (csrr_asm_string_view r ≡ append "csrr %0, " (mnemonic r))
unfolding csrw_asm_string_view csrr_asm_string_view
asm_texts medeleg = (refl, refl)
asm_texts mideleg = (refl, refl)
asm_texts mie = (refl, refl)
asm_texts mstatus = (refl, refl)
asm_texts mtvec = (refl, refl)
asm_texts mip = (refl, refl)
asm_texts mcounteren = (refl, refl)
asm_texts pmpaddr0 = (refl, refl)
asm_texts pmpcfg0 = (refl, refl)
asm_texts sstatus = (refl, refl)
asm_texts stvec = (refl, refl)
asm_texts sip = (refl, refl)
asm_texts sie = (refl, refl)
asm_texts scounteren = (refl, refl)
asm_texts sscratch = (refl, refl)
asm_texts sepc = (refl, refl)
asm_texts scause = (refl, refl)
asm_texts stval = (refl, refl)
asm_texts senvcfg = (refl, refl)
asm_texts satp = (refl, refl)
