-- ===== src/Models/Common.antt =====
-- Values that several records of scenara/platform/models.py share. A timestamp is a float of
-- seconds that is never negative. The code stores timestamps, compares them and takes the later one:
-- for this a timestamp stands for its place in the order of the floats from 0 upward. Where the code
-- adds seconds to one (the window of a quota, ControlPlane), timestamps are whole seconds.
use scenara.Prelude.{String, ℕ, Bool}
use scenara.Prelude.Dict.{Dict}

abbrev pub Timestamp : Type 0
Timestamp = ℕ

-- Other floats that are only stored.
abbrev pub Float : Type 0
Float = ℕ

-- Values of type `Any` in a JSON document; a number by its text.
mutual
  pub data Json : Type 0 where
    null : Json
    flag : Bool → Json
    number : String → Json
    text : String → Json
    items : JsonList → Json
    object : JsonFields → Json

  pub data JsonList : Type 0 where
    nil : JsonList
    cons : Json → JsonList → JsonList

  pub data JsonFields : Type 0 where
    end : JsonFields
    field : String → Json → JsonFields → JsonFields

-- `dict[str, Any]`
abbrev pub JsonObject : Type 0
JsonObject = Dict String Json

-- `int` where the sign matters; the code only stores such values.
pub data ℤ : Type 0 where
  pos : ℕ → ℤ
  negsuc : ℕ → ℤ

pub record PipelineRef : Type 0 where
  pub pipeline_id : String
  pub version : String
