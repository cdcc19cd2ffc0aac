-- ===== src/S7comm/Tables.antt =====
-- The message kinds and functions of pyscan/domain/s7comm.py.
use pyscan.Prelude.{ℕ, Option, none, some, [], ◌∷◌, ◌++◌, Text, codes, decimal, hex2, Table, lookup}

-- What an S7 job asks the CPU to do.
pub data JobClass : Type 0 where
  read write program control setup other : JobClass

abbrev pub rosctr_names : Table Text
rosctr_names =
    (0x01, codes "job")
    ∷ (0x02, codes "ack")
    ∷ (0x03, codes "ack-data")
    ∷ (0x07, codes "userdata")
    ∷ []

abbrev pub functions : Table (Text × JobClass)
functions =
    (0x00, (codes "CPU services", other))
    ∷ (0x04, (codes "Read Var", read))
    ∷ (0x05, (codes "Write Var", write))
    ∷ (0x1A, (codes "Request download", program))
    ∷ (0x1B, (codes "Download block", program))
    ∷ (0x1C, (codes "Download ended", program))
    ∷ (0x1D, (codes "Start upload", program))
    ∷ (0x1E, (codes "Upload", program))
    ∷ (0x1F, (codes "End upload", program))
    ∷ (0x28, (codes "PLC Control", control))
    ∷ (0x29, (codes "PLC Stop", control))
    ∷ (0xF0, (codes "Setup communication", setup))
    ∷ []

pub record S7Job : Type 0 where
  pub rosctr : ℕ
  pub function : ℕ

kind_of : ℕ → Option Text → Text
kind_of rosctr none = codes "rosctr " ++ decimal rosctr
kind_of rosctr (some name) = name

-- The property `S7Job.kind`.
unfoldable pub job_kind : S7Job → Text
unfolding kind_of lookup
job_kind job = kind_of job.rosctr (lookup job.rosctr rosctr_names)

name_of : ℕ → Option (Text × JobClass) → Text
name_of function none = codes "Function 0x" ++ hex2 function
name_of function (some (name, kind)) = name

-- The property `S7Job.name`.
unfoldable pub job_name : S7Job → Text
unfolding name_of lookup
job_name job = name_of job.function (lookup job.function functions)

class_of : Option (Text × JobClass) → JobClass
class_of none = other
class_of (some (name, kind)) = kind

-- The property `S7Job.job_class`.
unfoldable pub job_class : S7Job → JobClass
unfolding class_of lookup
job_class job = class_of (lookup job.function functions)
