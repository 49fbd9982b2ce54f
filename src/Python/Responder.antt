-- ===== src/Python/Responder.antt =====
-- bindings/python/pyrushkit.c: a connection whose host is a Python object. The messages that the C code prints are
-- left out, and reference counts are followed only for the host's object.
use rushkit.Base.{
  ℕ, ◌^◌, ◌≡◌, ◌≢◌, ◌<◌, refl, ap, ◌∙◌, Bool, false, List, [], ◌∷◌, Option, none, some, All, Bytes,
  length, ◌==◌, if◌then◌else◌,
}
use rushkit.Base.Outcome.{Outcome, ok, fault, assert, ◌>>=◌, ◌>>◌}
use rushkit.Amf.{Value}
use rushkit.Amf.Valid.{IsValid}
use rushkit.Amf.Encode.{amf_pack_call}
use rushkit.Amf.Pickler.{items_of}
use rushkit.Pool.{Pool, rt_pool_init, rt_pool_free}
use rushkit.Session.{Packet, Proto}
use rushkit.Protocol.{MethodTable, rtmp_proto_method_table_init}
use rushkit.Protocol.Send.{result_name, rtmp_proto_packet_return, rtmp_proto_call}
use rushkit.Protocol.Handlers.{connect_name, take_request_id, default_on_packet_invoke}
use rushkit.Protocol.Invoke.{default_on_packet_invoke-amf_pack_call}
use rushkit.Protocol.Feed.{rtmp_proto_feed_data}
use rushkit.Protocol.Lifetime.{
  rtmp_proto_init, rtmp_proto_get_user_data, rtmp_proto_set_user_data, rtmp_proto_init-IsInitial,
}
use rushkit.Python.{Python, av_2_py, av_list_2_py, convert_items, py_2_av}

-- "handleWriteData" and "handleInvoke"
abbrev pub handle_write_data : Bytes
handle_write_data =
    104 ∷ 97 ∷ 110 ∷ 100 ∷ 108 ∷ 101 ∷ 87 ∷ 114 ∷ 105 ∷ 116 ∷ 101 ∷ 68 ∷ 97 ∷ 116 ∷ 97 ∷ []

abbrev pub handle_invoke : Bytes
handle_invoke = 104 ∷ 97 ∷ 110 ∷ 100 ∷ 108 ∷ 101 ∷ 73 ∷ 110 ∷ 118 ∷ 111 ∷ 107 ∷ 101 ∷ []

-- What the interpreter does for the host: the attribute of an object, `none` for NULL, and a call, in
-- which Python code may use the connection again. `object_at` is the object at an address.
pub record Interpreter (py : Python) : Type 0 where
  pub object_at : ℕ → py.Obj
  pub get_attr : py.Obj → Bytes → Option py.Obj
  pub call_object : py.Obj → List py.Obj → Proto → Outcome Proto
  pub long_from : ℕ → py.Obj

module _ (py : Python) (host : Interpreter py) where
  -- The address of the host's object, 0 for NULL.
  unfoldable pub get_py_data : Proto → ℕ
  unfolding rtmp_proto_get_user_data
  get_py_data proto = rtmp_proto_get_user_data proto

  -- Python reads the type of the object that it gets, which fails on NULL.
  unfoldable pub get_member : Proto → Bytes → Outcome (Option py.Obj)
  unfolding get_py_data
  get_member proto member_name =
      let address = get_py_data proto in
      if address == 0 then fault else ok (host.get_attr (host.object_at address) member_name)

  unfoldable pub on_py_write_data : Proto → Bytes → Outcome (ℕ × Proto)
  unfolding get_member
  on_py_write_data proto src = do
    member ← get_member proto handle_write_data
    elim member [
      | none ↦ ok (0, proto)
      | some func ↦ do p ← host.call_object func (py.string_from src ∷ []) proto; ok (length src, p)
    ]

  unfoldable pub on_py_amf_call : Proto → ℕ → ℕ → Value → List Value → Outcome Proto
  unfolding get_member av_2_py av_list_2_py
  on_py_amf_call proto cid reqid method_name args = do
    member ← get_member proto handle_invoke
    elim member [
      | none ↦ ok proto
      | some func ↦
          host.call_object func
            (host.long_from reqid ∷ av_2_py py method_name ∷ av_list_2_py py (items_of args) ∷ [])
            proto
    ]

  -- `environment_init`, and the callbacks that `init_responder` adds.
  unfoldable pub method_table : MethodTable
  unfolding rtmp_proto_method_table_init
  method_table = record rtmp_proto_method_table_init {
    on_write_data = some on_py_write_data;
    on_amf_call = some on_py_amf_call;
  }

  -- The addresses of the objects that lose a reference and gain one, and the connection. The old host is
  -- looked up behind `rtmp_proto_init`.
  unfoldable pub init_responder : (ℕ → Bytes) → Proto → ℕ → Outcome (ℕ × ℕ × Proto)
  unfolding get_py_data rtmp_proto_set_user_data
  init_responder alloc proto responder = do
    p ← rtmp_proto_init alloc proto
    let old = get_py_data p
    ok (old, responder, rtmp_proto_set_user_data p responder)

  -- The address of the object that loses a reference, and the connection; its memory is not freed.
  unfoldable pub free_responder : Proto → ℕ × Proto
  unfolding get_py_data rtmp_proto_set_user_data
  free_responder proto = (get_py_data proto, rtmp_proto_set_user_data proto 0)

  module _ (small : Bool) (now : ℕ) (to_double from_double : ℕ → ℕ) (alloc : ℕ → Bytes) where
    unfoldable pub feed_data : Proto → py.Obj → Outcome (ℕ × Proto)
    unfolding method_table
    feed_data proto obj = do
      let buffer = py.string_bytes obj
      p ← rtmp_proto_feed_data small method_table now to_double from_double alloc proto buffer
      ok (length buffer, p)

    -- `memory` is what the local pool holds before it is initialised, and `blank` and `blank_key` what
    -- stands in memory that is not set. The fuel is for the nesting of the objects.
    module _ (fuel : ℕ) (blank_key : Bytes) (blank : Value) (memory : Pool) where
      unfoldable pub amf_return : Proto → ℕ → py.Obj → Outcome (Option Pool × Proto)
      unfolding method_table
      amf_return proto reqid retv = do
        dest ← py_2_av py fuel blank_key blank blank retv
        (ppool, p) ←
            rtmp_proto_packet_return small method_table to_double now proto
              (some (rt_pool_init memory)) 3 reqid dest
        ok (elim ppool [ none ↦ none | some pool ↦ some (rt_pool_free pool) ], p)

      unfoldable pub my_amf_call : Proto → Bytes → py.Obj → Outcome (ℕ × Proto)
      unfolding method_table
      my_amf_call proto method_name args = do
        assert (py.is_list args)
        elements ←
            convert_items py blank_key blank (py_2_av py fuel blank_key blank) (py.list_items args)
        rtmp_proto_call small method_table to_double now proto method_name elements

  -- The host that a connection had before is never released: whatever the connection held, `init_responder` finds NULL in
  -- its place, and the new host takes it.
  pub init_responder_lem :
      (alloc : ℕ → Bytes) (proto : Proto) (responder : ℕ)
      → (p : Proto) × (init_responder alloc proto responder ≡ ok (0, responder, p))
        × (rtmp_proto_get_user_data p ≡ responder)
        × ((free_responder p).0 ≡ responder)
        × (p.pkg_st ≡ 0)
  unfolding init_responder free_responder rtmp_proto_get_user_data rtmp_proto_set_user_data
  init_responder_lem alloc proto responder =
      let (p, e, initial) = rtmp_proto_init-IsInitial alloc proto in
      (
        rtmp_proto_set_user_data p responder,
        rw e (
            ap (λ old. ok (old, responder, rtmp_proto_set_user_data p responder))
              initial.no_user_data),
        refl,
        refl,
        initial.before_connect,
      )

  -- A packed call that comes in, except "connect" and "_result", reaches the method `handleInvoke` of the connection's
  -- Python object, with the request's number, the name and the list of the arguments as Python objects. The name
  -- has less than 2 ^ 15 bytes, and the wire format can carry each argument.
  pub default_on_packet_invoke-on_py_amf_call :
      (small : Bool) (now : ℕ) (to_double from_double : ℕ → ℕ) (proto : Proto) (pac : Packet)
      (name : Bytes) (req_id : ℕ) (args : List Value) (func : py.Obj)
      → amf_pack_call small name req_id args ≡ ok (pac.payload)
      → name ≢ connect_name
      → name ≢ result_name
      → length name < 2 ^ 15
      → req_id < 2 ^ 64
      → All IsValid args
      → get_member (take_request_id proto false (from_double req_id)) handle_invoke ≡ ok (some func)
      → default_on_packet_invoke small method_table now to_double from_double proto pac
        ≡ host.call_object func
            (host.long_from (from_double req_id)
              ∷ py.string_from name
              ∷ av_list_2_py py (items_of args)
              ∷ [])
            (take_request_id proto false (from_double req_id))
  unfolding method_table on_py_amf_call av_2_py
  default_on_packet_invoke-on_py_amf_call small now to_double from_double proto pac name req_id args
        func packed nc nr hn hr h known =
      default_on_packet_invoke-amf_pack_call small method_table now to_double from_double proto pac
        name req_id args on_py_amf_call refl packed nc nr hn hr h
      ∙ rw known refl
