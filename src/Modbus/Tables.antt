-- ===== src/Modbus/Tables.antt =====
-- The function codes of pyscan/domain/modbus.py, what each does, and their names.
use pyscan.Prelude.{ℕ, Option, none, some, [], ◌∷◌, ◌++◌, Text, codes, decimal, Table, lookup}

-- What a function code does to the device.
pub data FunctionClass : Type 0 where
  read write recon program other : FunctionClass

abbrev pub functions : Table (Text × FunctionClass)
functions =
    (0x01, (codes "Read Coils", read))
    ∷ (0x02, (codes "Read Discrete Inputs", read))
    ∷ (0x03, (codes "Read Holding Registers", read))
    ∷ (0x04, (codes "Read Input Registers", read))
    ∷ (0x05, (codes "Write Single Coil", write))
    ∷ (0x06, (codes "Write Single Register", write))
    ∷ (0x07, (codes "Read Exception Status", read))
    ∷ (0x08, (codes "Diagnostics", recon))
    ∷ (0x0B, (codes "Get Comm Event Counter", read))
    ∷ (0x0C, (codes "Get Comm Event Log", read))
    ∷ (0x0F, (codes "Write Multiple Coils", write))
    ∷ (0x10, (codes "Write Multiple Registers", write))
    ∷ (0x11, (codes "Report Server ID", recon))
    ∷ (0x14, (codes "Read File Record", read))
    ∷ (0x15, (codes "Write File Record", program))
    ∷ (0x16, (codes "Mask Write Register", write))
    ∷ (0x17, (codes "Read/Write Multiple Registers", write))
    ∷ (0x18, (codes "Read FIFO Queue", read))
    ∷ (0x2B, (codes "Read Device Identification", recon))
    ∷ (0x5A, (codes "UMAS (Schneider vendor)", program))
    ∷ []

class_of : Option (Text × FunctionClass) → FunctionClass
class_of none = other
class_of (some (name, kind)) = kind

unfoldable pub classify_function : ℕ → FunctionClass
unfolding class_of lookup
classify_function function_code = class_of (lookup function_code functions)

name_of : ℕ → Option (Text × FunctionClass) → Text
name_of function_code none = codes "Function " ++ decimal function_code
name_of function_code (some (name, kind)) = name

unfoldable pub function_name : ℕ → Text
unfolding name_of lookup
function_name function_code = name_of function_code (lookup function_code functions)
