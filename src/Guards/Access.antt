-- ===== src/Guards/Access.antt =====
-- What a request that passes the checks of access has shown.
use zsequencer.Prelude.{
  ◌≡◌, true, false, not, Option, none, some, String, arith, str_eq, eq_iff, ap,
}
use zsequencer.Errors.{ok, >>=-eq-ok, raise_if-ok, invalid_request, permission_denied}
use zsequencer.Dict.{lookup}
use zsequencer.Config.{NodeData, NetworkState, Config, last_state}
use zsequencer.Network.{Network}
use zsequencer.Guards.{
  verify_node_access, verify_sequencer_access, header_or_denied, signer_or_denied, other_signer,
}

-- The body is not empty, and its hash is signed with the key that the last network state has for
-- the signer.
pub record IsSigned (net : Network) (c : Config net.Key) (signature signer : Option String)
    (body : String) : Type 0 where
  pub signature_text : String
  pub id : String
  pub state : NetworkState net.Key
  pub node_data : NodeData net.Key
  pub has_signature : signature ≡ some signature_text
  pub has_signer : signer ≡ some id
  pub is_last : last_state c ≡ ok state
  pub known : lookup id state.nodes ≡ some node_data
  pub filled : str_eq body "" ≡ false
  pub verified :
      net.is_bls_sig_verified signature_text (net.gen_hash body) node_data.public_key_g2 ≡ true

header_found : (o : Option String) (text : String) → header_or_denied o ≡ ok text → o ≡ some text
unfolding header_or_denied
header_found none text h = absurd (cc)
header_found (some t) text h = cc

signer_found :
    {Key : Type 0} (o : Option (NodeData Key)) (d : NodeData Key)
    → signer_or_denied o ≡ ok d
    → o ≡ some d
unfolding signer_or_denied
signer_found none d h = absurd (cc)
signer_found (some t) d h = cc

module _ (net : Network) (c : Config net.Key) where
  -- ok
  pub verify_node_access-IsSigned :
      (signature signer : Option String) (body : String) {u : Unit {0}}
      → verify_node_access net c signature signer body ≡ ok u
      → IsSigned net c signature signer body
  unfolding verify_node_access
  verify_node_access-IsSigned signature signer body h =
      let (t, e1, h1) = >>=-eq-ok (header_or_denied signature) _ h in
      let (id, e2, h2) = >>=-eq-ok (header_or_denied signer) _ h1 in
      let (s, e3, h3) = >>=-eq-ok (last_state c) _ h2 in
      let (d, e4, h4) = >>=-eq-ok (signer_or_denied (lookup id s.nodes)) _ h3 in
      let (u1, e5, h5) = >>=-eq-ok _ _ h4 in
      let v =
        raise_if-ok permission_denied
          (not (net.is_bls_sig_verified t (net.gen_hash body) d.public_key_g2)) h5 in
      record {
        signature_text = t;
        id = id;
        state = s;
        node_data = d;
        has_signature = header_found signature t e1;
        has_signer = header_found signer id e2;
        is_last = e3;
        known = signer_found (lookup id s.nodes) d e4;
        filled = raise_if-ok invalid_request (str_eq body "") e5;
        verified = ground (arith, v);
      }

  -- A request that passes the check of the sequencer's access has both headers and a body that
  -- is not empty, its signer is the current sequencer, and the signature is verified on the
  -- hash of the body under the key that the last network state has for the signer.
  pub verify_sequencer_access-IsSigned :
      (signature signer : Option String) (body : String) {u : Unit {0}}
      → verify_sequencer_access net c signature signer body ≡ ok u
      → IsSigned net c signature signer body × (signer ≡ some c.sequencer.id)
  unfolding verify_sequencer_access other_signer
  verify_sequencer_access-IsSigned signature signer body h =
      let (u1, e1, h1) = >>=-eq-ok (verify_node_access net c signature signer body) _ h in
      let v = raise_if-ok permission_denied (other_signer net c signer) h1 in
      (verify_node_access-IsSigned signature signer body e1, same signer v)
    where
      same :
          (signer : Option String)
          → other_signer net c signer ≡ false
          → signer ≡ some c.sequencer.id
      same none k = absurd (cc)
      same (some id) k =
          let e : id ≡ c.sequencer.id = ground (arith, k, eq_iff id c.sequencer.id) in ap some e
