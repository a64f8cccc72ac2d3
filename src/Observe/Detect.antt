-- ===== src/Observe/Detect.antt =====
-- packages/bare-observe/src/detect.ts: the runtime, by the globals that are there.
use bare_network_inspect.Base.{
  Bool, true, false, ◌&&◌, ◌||◌, Option, none, some, if◌then◌else◌, JsString, ascii,
}
use bare_network_inspect.Registry.{is_same}

pub data Runtime : Type 0 where
  pear : Runtime
  bare : Runtime
  react_native : Runtime
  electron : Runtime
  node : Runtime
  browser : Runtime
  unknown : Runtime

pub record RuntimeInfo : Type 0 where
  pub runtime : Runtime
  pub is_bare_runtime : Bool
  pub is_bridge_only : Bool

-- The global object: which of its properties the code finds, and `navigator?.product`.
pub record Env : Type 0 where
  pub has_pear : Bool
  pub has_bare : Bool
  pub product : Option JsString
  pub has_fb_batched_bridge : Bool
  pub has_hermes_internal : Bool
  pub has_electron_version : Bool
  pub has_node_version : Bool
  pub has_window : Bool
  pub has_document : Bool

abbrev pub info : Runtime → Bool → Bool → RuntimeInfo
info runtime is_bare_runtime is_bridge_only = record {
  runtime = runtime;
  is_bare_runtime = is_bare_runtime;
  is_bridge_only = is_bridge_only;
}

unfoldable pub is_react_native_product : Option JsString → Bool
is_react_native_product none = false
is_react_native_product (some p) = is_same p (ascii "ReactNative")

unfoldable pub is_react_native : Env → Bool
is_react_native env =
    is_react_native_product env.product || env.has_fb_batched_bridge || env.has_hermes_internal

unfoldable pub detect_runtime : Env → RuntimeInfo
detect_runtime env =
    if env.has_pear
    then info pear true false
    else if env.has_bare
    then info bare true false
    else if is_react_native env
    then info react_native false true
    else if env.has_electron_version
    then info electron false false
    else if env.has_node_version
    then info node false false
    else if env.has_window && env.has_document
    then info browser false true
    else info unknown false false
