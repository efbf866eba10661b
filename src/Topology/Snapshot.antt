-- ===== src/Topology/Snapshot.antt =====
-- vs/src/policy_mgr.rs: the link between two nodes by the captured policy, `PolicySnapshot::describe_link`.
use zl_zpr_visaservice.Base.{
  ℕ, String, ◌≡◌, ◌≢◌, sym, ap, ◌∙◌, List, Option, none, some, Result, ok, err, panic,
}
use zl_zpr_visaservice.IpAddr.{IpAddr}
use zl_zpr_visaservice.Policy.Links
use zl_zpr_visaservice.Policy.Links.{
  ℤ, Peering, LinkDescription, PolicyError, LinkTables, load_links, description,
}
use zl_zpr_visaservice.Policy.Links.First.{
  first_joining, peerings_of, link_id_of, described, describe_link-first_joining,
}
use zl_zpr_visaservice.Graph.{link_not_found}
use zl_zpr_visaservice.Topology.{ServiceError, topology}

abbrev pub as_missing : Result PolicyError LinkDescription → Result ServiceError LinkDescription
as_missing (ok desc) = ok desc
as_missing (err e) = err (topology link_not_found)
as_missing panic = panic

unfoldable pub describe_link :
    (String → Option ℤ) → ℕ → LinkTables → IpAddr → IpAddr → Result ServiceError LinkDescription
describe_link parse_i32 now t a b = as_missing (Links.describe_link parse_i32 now t a b)

-- an answer for each two nodes, and no link of a node with itself
pub record Describes (describe : IpAddr → IpAddr → Result ServiceError LinkDescription)
    : Type 0 where
  pub total : (a b : IpAddr) → describe a b ≢ panic
  pub no_loop : (n : IpAddr) (desc : LinkDescription) → describe n n ≢ ok desc

described-total :
    (f : String → LinkDescription) (o : Option String) → as_missing (described f o) ≢ panic
described-total f none same = cc same
described-total f (some id) same = cc same

pub describe_link-Describes :
    (parse_i32 : String → Option ℤ) (now : ℕ) (peerings : Option (List Peering))
    → ((n : IpAddr) → first_joining n n (peerings_of peerings) ≡ none)
    → Describes (describe_link parse_i32 now (load_links peerings))
unfolding describe_link
describe_link-Describes parse_i32 now peerings apart =
    let answer =
      λ (a b : IpAddr). ap as_missing (describe_link-first_joining parse_i32 now peerings a b).0 in
    let f = description parse_i32 now (load_links peerings) in
    record {
      total = λ a b panics.
          described-total f (link_id_of (first_joining a b (peerings_of peerings)))
            (sym (answer a b) ∙ panics);
      no_loop = λ n desc is.
          cc (sym is ∙ answer n n ∙ ap (λ o. as_missing (described f (link_id_of o))) (apart n));
    }
