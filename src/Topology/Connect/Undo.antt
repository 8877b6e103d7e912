-- ===== src/Topology/Connect/Undo.antt =====
-- A disconnection after the connection.
use pothos_core.Base.{
  List, [], ◌∷◌, ◌++◌, true, false, not, some, ℕ, ◌==◌, ◌≡◌, ◌≢◌, refl, ap, ◌∙◌, arith, Bool-cases,
  inl, inr,
}
use pothos_core.Topology.{Flow, find_flow}
use pothos_core.Topology.Same.{same_flow_refl}
use pothos_core.Topology.Connect.{
  Topology, make_port, find_name, done, refused, Objects, connect, erase_flow, port_names,
  clear_ports, remove_flow, disconnect, names_out, has,
}

find_flow-end : (f : Flow) (fs : List Flow) → find_flow f (fs ++ f ∷ []) ≡ true
unfolding find_flow
find_flow-end f [] = ground (arith, same_flow_refl f)
find_flow-end f (x ∷ fs) = ground (arith, find_flow-end f fs)

erase_flow-end :
    (f : Flow) (fs : List Flow) → find_flow f fs ≡ false → erase_flow f (fs ++ f ∷ []) ≡ fs
unfolding find_flow erase_flow
erase_flow-end f [] h = ground (arith, same_flow_refl f)
erase_flow-end f (x ∷ fs) h = ground (arith, erase_flow-end f fs)

connected :
    (o : Objects) (src src_name dst dst_name : ℕ) (t : Topology)
    → (src == t.self) ≡ false
    → (dst == t.self) ≡ false
    → find_name src_name (o.output_names src) ≡ true
    → find_name dst_name (o.input_names dst) ≡ true
    → let f : Flow = record { src = make_port t src src_name; dst = make_port t dst dst_name } in
      find_flow f t.flows ≡ false
      → connect o src src_name dst dst_name t ≡ (record t { flows = t.flows ++ f ∷ [] }, done)
unfolding connect
connected o src src_name dst dst_name t s d fs fd new = rw (connect, new, s, d, fs, fd) refl

clear_ports_none :
    (f : Flow) (t : Topology) → f.src.obj ≡ true → f.dst.obj ≡ true → clear_ports f t ≡ some t
unfolding clear_ports
clear_ports_none f t s d = rw (s, d) refl

found_flow :
    (f : Flow) (t : Topology)
    → find_flow f t.flows ≡ true
    → remove_flow f t (some t) ≡ (record t { flows = erase_flow f t.flows }, done)
unfolding remove_flow
found_flow f t h = rw (h) refl

disconnected :
    (o : Objects) (src src_name dst dst_name : ℕ) (t : Topology)
    → (src == t.self) ≡ false
    → (dst == t.self) ≡ false
    → find_name src_name (o.output_names src) ≡ true
    → find_name dst_name (o.input_names dst) ≡ true
    → let f : Flow = record { src = make_port t src src_name; dst = make_port t dst dst_name } in
      find_flow f t.flows ≡ true
      → disconnect o src src_name dst dst_name t ≡ (record t { flows = erase_flow f t.flows }, done)
unfolding disconnect
disconnected o src src_name dst dst_name t s d fs fd there =
    let f : Flow = record { src = make_port t src src_name; dst = make_port t dst dst_name } in
    let cleared : clear_ports f t ≡ some t = clear_ports_none f t (ap not s) (ap not d) in
    let removed : remove_flow f t (some t) ≡ (record t { flows = erase_flow f t.flows }, done) =
      found_flow f t there in
    rw (disconnect, cleared, removed, s, d, fs, fd) refl

-- Between ports that other objects list, and are not connected yet, a connection is made, and the
-- disconnection after it gives the topology back.
pub disconnect-connect :
    (o : Objects) (src src_name dst dst_name : ℕ) (t : Topology)
    → src ≢ t.self
    → dst ≢ t.self
    → find_name src_name (o.output_names src) ≡ true
    → find_name dst_name (o.input_names dst) ≡ true
    → find_flow (record { src = make_port t src src_name; dst = make_port t dst dst_name }) t.flows
      ≡ false
    → ((connect o src src_name dst dst_name t).1 ≡ done)
      × (disconnect o src src_name dst dst_name (connect o src src_name dst dst_name t).0
          ≡ (t, done))
disconnect-connect o src src_name dst dst_name t hs hd fs fd new =
    let f : Flow = record { src = make_port t src src_name; dst = make_port t dst dst_name } in
    let s : (src == t.self) ≡ false = ground arith in
    let d : (dst == t.self) ≡ false = ground arith in
    let t' : Topology = record t { flows = t.flows ++ f ∷ [] } in
    rw (connected o src src_name dst dst_name t s d fs fd new) (
      refl,
      disconnected o src src_name dst dst_name t' s d fs fd (find_flow-end f t.flows)
          ∙ ap (λ fs. (record t { flows = fs }, done)) (erase_flow-end f t.flows new),
    )

-- An object that does not list the output refuses.
unlisted :
    (o : Objects) (src src_name dst dst_name : ℕ) (t : Topology)
    → has src_name (names_out o src t) ≡ false
    → disconnect o src src_name dst dst_name t ≡ (t, refused)
unfolding disconnect
unlisted o src src_name dst dst_name t h = rw (disconnect, h) refl

-- A connection from an input of the topology itself changes none of its outputs.
connect_outputs :
    (o : Objects) (src_name dst dst_name : ℕ) (t : Topology)
    → (dst == t.self) ≡ false
    → let t' = (connect o t.self src_name dst dst_name t).0 in
      names_out o t.self t' ≡ port_names t.output_port_names t.output_port_info
unfolding connect
connect_outputs o src_name dst dst_name t d =
    let f : Flow = record { src = make_port t t.self src_name; dst = make_port t dst dst_name } in
    let self : (t.self == t.self) ≡ true = ground arith in
    elim (Bool-cases (find_name dst_name (o.input_names dst))) [
      | inl listed ↦ elim (Bool-cases (find_flow f t.flows)) [
        | inl found ↦ rw (connect, found, self, d, listed, self) refl
        | inr new ↦ rw (connect, new, self, d, listed, self) refl
      ]
      | inr missing ↦ rw (connect, self, d, missing, self) refl
    ]

-- An input of the topology itself that is connected to a block's port cannot be disconnected again:
-- the name is looked up among the topology's outputs, and where no output has it the call is refused
-- and the flow stays.
pub disconnect_input_refused :
    (o : Objects) (src_name dst dst_name : ℕ) (t : Topology)
    → has src_name (port_names t.output_port_names t.output_port_info) ≡ false
    → dst ≢ t.self
    → let t' = (connect o t.self src_name dst dst_name t).0 in
      disconnect o t.self src_name dst dst_name t' ≡ (t', refused)
disconnect_input_refused o src_name dst dst_name t h hd =
    let d : (dst == t.self) ≡ false = ground arith in
    unlisted o t.self src_name dst dst_name (connect o t.self src_name dst dst_name t).0
      (ap (has src_name) (connect_outputs o src_name dst dst_name t d) ∙ h)
