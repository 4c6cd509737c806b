-- ===== src/Vda/Value.antt =====
-- Parsed JSON. The controllers carry positions, trajectories, loads and the like along unread;
-- numbers stand there by their literal, so no arithmetic on them is claimed.
use vda_5050_lib_js.Common.{Bool, String, Eq, eq_String, eq_iff, arith, true, ◌==◌, ◌&&◌, ◌≡◌, ◌↔◌}

mutual
  pub data Json : Type 0 where
    null : Json
    boolean : Bool → Json
    number : (literal : String) → Json
    string : String → Json
    array : Items → Json
    object : Fields → Json

  pub data Items : Type 0 where
    no_items : Items
    item : Json → Items → Items

  pub data Fields : Type 0 where
    no_fields : Fields
    field : (key : String) → Json → Fields → Fields

-- `AgvId` of src/common/client-types.ts.
pub record AgvId : Type 0 where
  pub manufacturer : String
  pub serial_number : String

-- Two vehicles: the comparison of both parts.
abbrev same_agv : AgvId → AgvId → Bool
same_agv a b = a.manufacturer == b.manufacturer && a.serial_number == b.serial_number

pub same_agv_iff : (a b : AgvId) → (same_agv a b ≡ true) ↔ (a ≡ b)
same_agv_iff a b = (
  λ h. ground (arith, eq_iff a.manufacturer b.manufacturer, eq_iff a.serial_number b.serial_number),
  λ e. rw e (
      ground (arith, eq_iff b.manufacturer b.manufacturer, eq_iff b.serial_number b.serial_number)),
)

instance abbrev pub eq_AgvId : Eq AgvId
eq_AgvId = record { same_iff = same_agv_iff; same = same_agv }
