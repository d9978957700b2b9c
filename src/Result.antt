-- ===== src/Result.antt =====
-- libjcat/jcat-result.c: the object JcatResult and its getters. Of the engine that the object refers
-- to it reads the kind and the method, which never change, so it keeps those.
use libjcat.Kind.{JcatBlobKind, JcatBlobMethod, unknown, unknown_method}
use libjcat.Prelude.{Option, none, some, Bytes, ℤ, pos}

pub record EngineRef : Type 0 where
  pub kind : JcatBlobKind
  pub method : JcatBlobMethod

-- The struct _JcatResult.
pub record JcatResult : Type 0 where
  pub timestamp : ℤ
  pub authority : Option Bytes
  pub engine : Option EngineRef

-- `g_object_new(JCAT_TYPE_RESULT, "engine", engine, NULL)`.
unfoldable pub of_engine : EngineRef → JcatResult
of_engine engine = record { timestamp = pos 0; authority = none; engine = some engine }

abbrev kind_or_unknown : Option EngineRef → JcatBlobKind
kind_or_unknown none = unknown
kind_or_unknown (some engine) = engine.kind

-- `jcat_result_get_kind`.
unfoldable pub get_kind : JcatResult → JcatBlobKind
get_kind self = kind_or_unknown self.engine

abbrev method_or_unknown : Option EngineRef → JcatBlobMethod
method_or_unknown none = unknown_method
method_or_unknown (some engine) = engine.method

-- `jcat_result_get_method`.
unfoldable pub get_method : JcatResult → JcatBlobMethod
get_method self = method_or_unknown self.engine
