-- ===== src/Iec104/Tables.antt =====
-- The type ids and control octets of pyscan/domain/iec104.py.
use pyscan.Prelude.{
  ℕ, Option, none, some, [], ◌∷◌, ◌++◌, Text, codes, decimal, Table, lookup, ltb, if◌then◌else◌,
}

abbrev pub u_frames : Table Text
u_frames =
    (0x07, codes "STARTDT act")
    ∷ (0x0B, codes "STARTDT con")
    ∷ (0x13, codes "STOPDT act")
    ∷ (0x23, codes "STOPDT con")
    ∷ (0x43, codes "TESTFR act")
    ∷ (0x83, codes "TESTFR con")
    ∷ []

-- What an ASDU type id does.
pub data TypeClass : Type 0 where
  monitor command system : TypeClass

abbrev pub type_ids : Table (Text × TypeClass)
type_ids =
    (1, (codes "M_SP_NA single point", monitor))
    ∷ (3, (codes "M_DP_NA double point", monitor))
    ∷ (9, (codes "M_ME_NA measured normalised", monitor))
    ∷ (13, (codes "M_ME_NC measured short float", monitor))
    ∷ (30, (codes "M_SP_TB single point w/ time", monitor))
    ∷ (45, (codes "C_SC_NA single command", command))
    ∷ (46, (codes "C_DC_NA double command", command))
    ∷ (47, (codes "C_RC_NA regulating step command", command))
    ∷ (48, (codes "C_SE_NA setpoint normalised", command))
    ∷ (49, (codes "C_SE_NB setpoint scaled", command))
    ∷ (50, (codes "C_SE_NC setpoint short float", command))
    ∷ (51, (codes "C_BO_NA bitstring command", command))
    ∷ (58, (codes "C_SC_TA single command w/ time", command))
    ∷ (59, (codes "C_DC_TA double command w/ time", command))
    ∷ (100, (codes "C_IC_NA interrogation", system))
    ∷ (101, (codes "C_CI_NA counter interrogation", system))
    ∷ (102, (codes "C_RD_NA read command", system))
    ∷ (103, (codes "C_CS_NA clock sync", system))
    ∷ (105, (codes "C_RP_NA reset process", command))
    ∷ (107, (codes "C_TS_TA test command w/ time", system))
    ∷ []

class_of : ℕ → Option (Text × TypeClass) → TypeClass
class_of type_id none = if ltb type_id 45 then monitor else command
class_of type_id (some (name, kind)) = kind

unfoldable pub classify_type_id : ℕ → TypeClass
unfolding class_of lookup
classify_type_id type_id = class_of type_id (lookup type_id type_ids)

name_of : ℕ → Option (Text × TypeClass) → Text
name_of type_id none = codes "TypeID " ++ decimal type_id
name_of type_id (some (name, kind)) = name

unfoldable pub type_name : ℕ → Text
unfolding name_of lookup
type_name type_id = name_of type_id (lookup type_id type_ids)

-- `U_FRAMES.get(control, "U-frame")`
u_frame_of : Option Text → Text
u_frame_of none = codes "U-frame"
u_frame_of (some name) = name

unfoldable pub u_frame_name : ℕ → Text
unfolding u_frame_of lookup
u_frame_name control = u_frame_of (lookup control u_frames)
