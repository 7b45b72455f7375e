-- ===== src/Plugins/Aws.antt =====
-- pkg/plugins/aws/main.go: the provider for nodes of AWS. The call of the EC2 client that terminates
-- an instance is a parameter.
use node_reaper.Base.{
  ◌≡◌, ◌≢◌, refl, [], ◌∷◌, ◌++◌, Option, some, List, Bytes, codes, arith, Error, sym, subst,
}
use node_reaper.Base.Table.{lookup}
use node_reaper.Node.{Node}
use node_reaper.Reaper.Effects.{Call, State, NodeProvider, NodeReaper, reap_node, get_nodes, called}
use node_reaper.Reaper.{run, drain}
use node_reaper.Reaper.Safety.{reaps}
use node_reaper.Reaper.Limits.{run-reaps_by_type}
use node_reaper.Reaper.Provider.{get_provider-ok_iff, IsRest}
use node_reaper.Plugins.{NodeProviders}
use node_reaper.Plugins.Registry.{IsRegistry}

-- `awsNodeProvider`, with the answer of `TerminateInstances` for one instance.
unfoldable pub aws_node_provider : (List Call → Bytes → Option Error) → NodeProvider
aws_node_provider terminate = record {
  type = codes "aws";
  reap = λ calls node. terminate calls node.external_id;
}

-- The map with this provider alone.
abbrev pub only_aws : (List Call → Bytes → Option Error) → NodeProviders
only_aws terminate = (codes "aws", aws_node_provider terminate) ∷ []

only_aws-IsRegistry :
    (terminate : List Call → Bytes → Option Error) → IsRegistry (only_aws terminate)
unfolding aws_node_provider lookup
only_aws-IsRegistry terminate = record { keyed = (refl, tt); distinct = (refl, tt) }

-- What is found in it is the provider of AWS.
lookup-only_aws :
    (terminate : List Call → Bytes → Option Error) (name : Bytes) (p : NodeProvider)
    → lookup name (only_aws terminate) ≡ some p
    → p.type ≡ codes "aws"
unfolding aws_node_provider lookup
lookup-only_aws terminate name p h = ground arith

-- With the provider of AWS alone, a run reaps only a node whose provider id is `aws`, or begins with
-- `aws:`, and the call of that provider comes last.
pub run-reaps-only_aws :
    {Expr F : Type 0} (nr : NodeReaper Expr F) (node : Node) (s : State)
    (terminate : List Call → Bytes → Option Error)
    → nr.node_providers ≡ only_aws terminate
    → reaps (run nr node s).1.calls ≢ reaps s.calls
    → (rest : Bytes) × (earlier : List Call) × (node.provider_id ≡ codes "aws" ++ rest)
      × IsRest rest
      × ((run nr node s).1.calls ≡ reap_node (codes "aws") node ∷ earlier)
run-reaps-only_aws nr node s terminate alone h =
    let (p, named, found, calls) =
      run-reaps_by_type nr node s (subst IsRegistry (sym alone) (only_aws-IsRegistry terminate))
        h in
    let kind =
      lookup-only_aws terminate p.type p
        (subst (λ (t : NodeProviders). lookup p.type t ≡ some p) alone found) in
    let (rest, spelt, some_, lacks, is_rest) =
      (get_provider-ok_iff node (codes "aws")).0 (rw kind at named) in
    (rest, (drain nr node (called get_nodes s)).1.calls, spelt, is_rest, rw kind at calls)
