-- ===== src/Zicsr/Csr.antt =====
-- The control and status registers (riscv32-sim/include/zicsr/csr.hpp).
use riscv32_sim.Base.{ℕ}

pub data Csr : Type 0 where
  ustatus fflags frm fcsr uie utvec uscratch uepc : Csr
  ucause utval uip cycle time instret hpmcounter3 hpmcounter31 : Csr
  cycleh timeh instreth hpmcounter3h hpmcounter31h sstatus sedeleg sideleg : Csr
  sie stvec scounteren sscratch sepc scause stval sip : Csr
  satp mvendorid marchid mimpid mhartid mstatus misa medeleg : Csr
  mideleg mie mtvec mcounteren mscratch mepc mcause mtval : Csr
  mip pmpcfg0 pmpcfg3 pmpaddr0 pmpaddr15 mcycle minstret mhpmcounter3 : Csr
  mhmpmcounter31 mcycleh minstreth mhpmcounter3h mhpmcounter31h mhpmevent3 mhpmevent31 tselect : Csr
  tdata1 tdata2 tdata3 dcsr dpc dscratch : Csr

-- The enumerators' values: `to_int`, or a cast to the underlying type.
abbrev pub to_int : Csr → ℕ
to_int ustatus = 0x000
to_int fflags = 0x001
to_int frm = 0x002
to_int fcsr = 0x003
to_int uie = 0x004
to_int utvec = 0x005
to_int uscratch = 0x040
to_int uepc = 0x041
to_int ucause = 0x042
to_int utval = 0x043
to_int uip = 0x044
to_int cycle = 0xC00
to_int time = 0xC01
to_int instret = 0xC02
to_int hpmcounter3 = 0xC03
to_int hpmcounter31 = 0xC1F
to_int cycleh = 0xC80
to_int timeh = 0xC81
to_int instreth = 0xC82
to_int hpmcounter3h = 0xC83
to_int hpmcounter31h = 0xC9F
to_int sstatus = 0x100
to_int sedeleg = 0x102
to_int sideleg = 0x103
to_int sie = 0x104
to_int stvec = 0x105
to_int scounteren = 0x106
to_int sscratch = 0x140
to_int sepc = 0x141
to_int scause = 0x142
to_int stval = 0x143
to_int sip = 0x144
to_int satp = 0x180
to_int mvendorid = 0xF11
to_int marchid = 0xF12
to_int mimpid = 0xF13
to_int mhartid = 0xF14
to_int mstatus = 0x300
to_int misa = 0x301
to_int medeleg = 0x302
to_int mideleg = 0x303
to_int mie = 0x304
to_int mtvec = 0x305
to_int mcounteren = 0x306
to_int mscratch = 0x340
to_int mepc = 0x341
to_int mcause = 0x342
to_int mtval = 0x343
to_int mip = 0x344
to_int pmpcfg0 = 0x3A0
to_int pmpcfg3 = 0x3A3
to_int pmpaddr0 = 0x3B0
to_int pmpaddr15 = 0x3BF
to_int mcycle = 0xB00
to_int minstret = 0xB02
to_int mhpmcounter3 = 0xB03
to_int mhmpmcounter31 = 0xB1F
to_int mcycleh = 0xB80
to_int minstreth = 0xB82
to_int mhpmcounter3h = 0xB83
to_int mhpmcounter31h = 0xB9F
to_int mhpmevent3 = 0x323
to_int mhpmevent31 = 0x33F
to_int tselect = 0x7A0
to_int tdata1 = 0x7A1
to_int tdata2 = 0x7A2
to_int tdata3 = 0x7A3
to_int dcsr = 0x7B0
to_int dpc = 0x7B1
to_int dscratch = 0x7B2
