-- ===== src/Safety/Wide.antt =====
-- Constants of crates/tpt-t-safety/src as 64-bit floats: the words of their bits.
use tpt_teleop.Prelude.{ℕ}

abbrev pub hundredth : ℕ
hundredth = 4576918229304087675

abbrev pub twentieth : ℕ
twentieth = 4587366580439587226

abbrev pub fifth : ℕ
fifth = 4596373779694328218

abbrev pub half : ℕ
half = 4602678819172646912

abbrev pub four_fifths : ℕ
four_fifths = 4605380978949069210

abbrev pub nine_tenths : ℕ
nine_tenths = 4606281698874543309

abbrev pub most : ℕ
most = 4606732058837280358

abbrev pub one : ℕ
one = 4607182418800017408

abbrev pub two : ℕ
two = 4611686018427387904

abbrev pub six : ℕ
six = 4618441417868443648

abbrev pub ten : ℕ
ten = 4621819117588971520

abbrev pub fifteen : ℕ
fifteen = 4624633867356078080

abbrev pub million : ℕ
million = 4696837146684686336

-- 1e-9
abbrev pub tiny : ℕ
tiny = 4472406533629990549
